-- ===== src/Features/Shortcuts.antt =====
-- web/src/ui/shortcuts.ts: which press of a key is a shortcut.
use Prim.Native.String.{String}
use megapet.Common.{Bool, ◌||◌, if◌then◌else◌, Option, none, some}

pub data Key : Type 0 where
  lower_g upper_g lower_d upper_d lower_u upper_u space : Key
  other_key : String → Key

-- What a press reports; `typing` is the answer of `isTyping` on its target, and `elsewhere` says
-- that something other than the page has the focus.
pub record Press : Type 0 where
  pub key : Key
  pub ctrl_key : Bool
  pub meta_key : Bool
  pub alt_key : Bool
  pub typing : Bool
  pub repeat : Bool
  pub elsewhere : Bool

pub data Shortcut : Type 0 where
  graph toggles_run toggles_download toggles_upload : Shortcut

unfoldable pub bound : Key → (elsewhere : Bool) → Option Shortcut
bound lower_g elsewhere = some graph
bound upper_g elsewhere = some graph
bound lower_d elsewhere = some toggles_download
bound upper_d elsewhere = some toggles_download
bound lower_u elsewhere = some toggles_upload
bound upper_u elsewhere = some toggles_upload
bound space elsewhere = if elsewhere then none else some toggles_run
bound (other_key name) elsewhere = none

unfoldable pub shortcut : Press → Option Shortcut
shortcut e =
    if e.ctrl_key || e.meta_key || e.alt_key
    then none
    else if e.typing
    then none
    else if e.repeat
    then none
    else bound e.key e.elsewhere
