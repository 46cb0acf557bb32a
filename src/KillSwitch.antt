-- ===== src/KillSwitch.antt =====
-- internal/killswitch/killswitch.go: the kill switch. Every method holds the lock from its first
-- line to its last, so a call is one step.
pub mod Holder
use scopepilot.Prelude.{
  ℕ, ◌≡◌, refl, String, Bool, true, false, List, [], ◌∷◌, Option, none, some, if◌then◌else◌,
}

-- The zero Time is 0.
pub record Switch : Type 0 where
  pub activated : Bool
  pub activated_at : ℕ
  pub activated_by : String

-- The zero value, as NewProxy makes it.
unfoldable pub new_switch : Switch
new_switch = record { activated = false; activated_at = 0; activated_by = "" }

-- Activate, at the time `now`
unfoldable pub activate : Switch → String → ℕ → Switch
activate s by now =
    if s.activated then s else record s { activated = true; activated_at = now; activated_by = by }

-- Deactivate
unfoldable pub deactivate : Switch → Switch
deactivate s = record s { activated = false; activated_at = 0; activated_by = "" }

-- IsActive
unfoldable pub is_active : Switch → Bool
is_active s = s.activated

pub record KillSwitchStatus : Type 0 where
  pub active : Bool
  pub activated_at : String
  pub activated_by : String

-- Status. `format` is Time.Format with RFC 3339.
unfoldable pub status : (ℕ → String) → Switch → KillSwitchStatus
status format s =
    if s.activated
    then record {
      active = s.activated;
      activated_at = format s.activated_at;
      activated_by = s.activated_by;
    }
    else record { active = s.activated; activated_at = ""; activated_by = "" }

-- The two formats of String, with their arguments.
pub data Display : Type 0 where
  shown_inactive : Display
  shown_active : String → String → Display

-- String
unfoldable pub to_string : (ℕ → String) → Switch → Display
to_string format s =
    if s.activated then shown_active s.activated_by (format s.activated_at) else shown_inactive
