-- ===== src/Web/World.antt =====
-- main/diag_webserver.cpp: the state that the handlers share.
use gdo_blaq_homekit.Prelude.{Bool}
use gdo_blaq_homekit.Control.{Control}
use gdo_blaq_homekit.Log.{Log}
use gdo_blaq_homekit.Activity.{History}
use gdo_blaq_homekit.Ota.{Ota}
use gdo_blaq_homekit.Admin.{Admin}
use gdo_blaq_homekit.Web.Pages.{Scratch}

-- What the handlers read and change. `restarting` tells whether delayed_restart_task was started.
pub record World : Type 0 where
  pub admin : Admin
  pub control : Control
  pub ota : Ota
  pub log : Log
  pub history : History
  pub scratch : Scratch
  pub restarting : Bool
