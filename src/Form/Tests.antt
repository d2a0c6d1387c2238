-- ===== src/Form/Tests.antt =====
-- Tests and witnesses for form_get_param.
use gdo_blaq_homekit.Prelude.{ℕ, ◌<◌, ◌≡◌, refl, List, [], ◌∷◌, none, some, length, codes, arith}
use gdo_blaq_homekit.Form.{get_param}
use gdo_blaq_homekit.Form.Rounds.{NoAmp}
use gdo_blaq_homekit.Form.Fields.{AllNoAmp, join, first_value, get_param-join}
use gdo_blaq_homekit.Form.Values.{NonNul, field, get_param-fits, get_param-encode}

time_param :
    get_param (codes "enabled=1&time=23%3A00&tz=A+B") (codes "time") 8 ≡ some (codes "23:00")
unfolding get_param
time_param = refl

plus_param : get_param (codes "xtz=1&tz=A+B%2") (codes "tz") 8 ≡ some (codes "A B%2")
unfolding get_param
plus_param = refl

too_long : get_param (codes "tz=ABC") (codes "tz") 3 ≡ none
unfolding get_param
too_long = refl

nul_byte : get_param (codes "tz=A%00C") (codes "tz") 30 ≡ none
unfolding get_param
nul_byte = refl

abbrev body_fields : List (List ℕ)
body_fields = codes "enabled=1" ∷ codes "time=23%3A00" ∷ []

time_NoAmp : NoAmp (codes "time")
time_NoAmp = ground arith

body_AllNoAmp : AllNoAmp body_fields
body_AllNoAmp = ground arith

get_param-join_example :
    get_param (join body_fields) (codes "time") 8 ≡ first_value (codes "time") 8 body_fields
get_param-join_example =
    get_param-join body_fields (codes "time") 8 time_NoAmp body_AllNoAmp (omega arith)

time_found : get_param (codes "time=23%3A00") (codes "time") 8 ≡ some (codes "23:00")
unfolding get_param
time_found = refl

get_param-fits_at_input : (length (codes "23:00") < 8) × NonNul (codes "23:00")
get_param-fits_at_input =
    get_param-fits (codes "time=23%3A00") (codes "time") 8 (omega arith) time_found

get_param-encode_example :
    get_param (join (field (codes "time") (codes "a&b") ∷ body_fields)) (codes "time") 4
    ≡ some (codes "a&b")
get_param-encode_example =
    get_param-encode (codes "time") (codes "a&b") body_fields 4 time_NoAmp body_AllNoAmp
      (omega arith) (omega arith)
