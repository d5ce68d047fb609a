-- ===== src/KncCapture/Plan.antt =====
-- The bindings of a capture plan and what marks them (apps/kinal/src/kn_knc_capture.c).
-- `bindings` is the list through `next`, the newest first; a binding's address is the number of
-- those made before it. `scope` is the chain through `outer`: its links and names are never
-- written again, so it is a list of addresses with their names.
use kinal.CString.{kn_strcmp}
use kinal.Lexer.Keywords.{is_equal}
use kinal.Prelude.{
  ℕ, Bool, false, ◌||◌, if◌then◌else◌, Option, some, List, [], ◌∷◌, Bytes, ◌==◌, length, map,
}

pub record KncCaptureBinding : Type 0 where
  pub address : ℕ
  pub declaration : Option ℕ
  pub name : Bytes
  pub captured : Bool

pub record Visible : Type 0 where
  pub address : ℕ
  pub name : Bytes

pub record KncCapturePlan : Type 0 where
  pub bindings : List KncCaptureBinding
  pub scope : List Visible

unfoldable pub declare_binding : KncCapturePlan → Option ℕ → Bytes → KncCapturePlan
declare_binding plan declaration name =
    let address = length plan.bindings in
    record {
      bindings =
          record { address = address; declaration = declaration; name = name; captured = false }
          ∷ plan.bindings;
      scope = record { address = address; name = name } ∷ plan.scope;
    }

-- `binding->captured = 1` at an address.
abbrev pub set_captured : ℕ → KncCaptureBinding → KncCaptureBinding
set_captured a b = record b { captured = b.captured || b.address == a }

unfoldable pub same_name : Bytes → Bytes → Bool
same_name m n = is_equal (kn_strcmp (some m) (some n))

-- The inner loop: an entry from the innermost to the one before `binding` has its name.
unfoldable pub is_shadowed : List Visible → Bytes → Bool
is_shadowed [] name = false
is_shadowed (v ∷ inner) name = same_name v.name name || is_shadowed inner name

-- The outer loop at the entries `scope`, behind those of `inner`.
unfoldable pub capture_loop :
    List Visible → List Visible → List KncCaptureBinding → List KncCaptureBinding
capture_loop inner [] bs = bs
capture_loop inner (v ∷ scope) bs =
    capture_loop (v ∷ inner) scope
      (if is_shadowed inner v.name then bs else map (set_captured v.address) bs)

unfoldable pub capture_visible_bindings : KncCapturePlan → KncCapturePlan
capture_visible_bindings plan = record plan { bindings = capture_loop [] plan.scope plan.bindings }

-- `plan->scope = saved`.
abbrev pub restore : KncCapturePlan → KncCapturePlan → KncCapturePlan
restore saved plan = record plan { scope = saved.scope }
