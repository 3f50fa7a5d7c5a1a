-- ===== src/Settings/Tests.antt =====
-- A run of the policy's changes, and its theorem at that run.
use capbase.Base.{ℕ, refl, List, [], ◌∷◌, none}
use capbase.Visibility.Validate.{str, whole, SectionRow, Overrides, resolve_gate_policy}
use capbase.Visibility.Registry.{default_gate_policy}
use capbase.Settings.Changes.{Change, set_section, reset_section, set_window, Service, handle_all}
use capbase.Settings.Stored.{Fresh, handle_all-Fresh}

abbrev empty_store : Overrides
empty_store = record { sections = []; fields = []; contribution_window_days = none }

abbrev booted : Service
booted = record { store = empty_store; snapshot = default_gate_policy; loaded_at = 0 }

abbrev rounds : SectionRow
rounds = record {
  section = "companyRounds";
  signed_out = str "preview";
  signed_in = str "full";
  unlocked = str "full";
  preview_rows = whole 3;
  partner_audience = str "contributors";
}

-- A valid section, one with no rows to preview, a window, and a section that nobody knows.
abbrev requests : List (ℕ × Change)
requests =
    (5, set_section rounds)
    ∷ (6, set_section (record rounds { preview_rows = whole 0 }))
    ∷ (7, set_window (whole 30))
    ∷ (8, reset_section "unknown")
    ∷ []

booted-Fresh : Fresh booted
unfolding resolve_gate_policy
booted-Fresh = (refl, refl)

handle_all-Fresh_example : Fresh (handle_all booted requests)
handle_all-Fresh_example = handle_all-Fresh booted requests (tt, tt, tt) booted-Fresh
