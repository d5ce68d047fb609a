-- ===== src/KncCapture/Marks.antt =====
-- What marking the visible bindings does to a plan (apps/kinal/src/kn_knc_capture.c,
-- capture_visible_bindings).
use kinal.KncCapture.Plan.{
  KncCapturePlan, KncCaptureBinding, Visible, is_shadowed, set_captured, capture_loop,
  capture_visible_bindings,
}
use kinal.Prelude.{
  ℕ, Bool, true, false, ◌||◌, if◌then◌else◌, List, [], ◌∷◌, ◌==◌, map, ◌≡◌, refl, sym, ap, ◌∙◌,
  Bool-cases, inl, inr,
}

abbrev pub has_address : ℕ → List ℕ → Bool
has_address a [] = false
has_address a (b ∷ bs) = a == b || has_address a bs

-- The addresses of a scope's visible bindings: those whose name no inner one has.
unfoldable pub visible : List Visible → List Visible → List ℕ
visible inner [] = []
visible inner (v ∷ scope) =
    let outer = visible (v ∷ inner) scope in
    if is_shadowed inner v.name then outer else v.address ∷ outer

abbrev pub mark : List ℕ → KncCaptureBinding → KncCaptureBinding
mark addresses b = record b { captured = b.captured || has_address b.address addresses }

or_false : (a : Bool) → (a || false) ≡ a
or_false true = refl
or_false false = refl

or_assoc : (a b c : Bool) → ((a || b) || c) ≡ (a || (b || c))
or_assoc true b c = refl
or_assoc false b c = refl

or_absorb : (a b : Bool) → ((a || b) || b) ≡ (a || b)
or_absorb true b = refl
or_absorb false true = refl
or_absorb false false = refl

-- A binding with another flag, before equal ones.
with_flag :
    (b : KncCaptureBinding) {c d : Bool} {xs ys : List KncCaptureBinding}
    → c ≡ d
    → xs ≡ ys
    → ◌≡◌ {A = List KncCaptureBinding}
        (record b { captured = c } ∷ xs)
        (record b { captured = d } ∷ ys)
with_flag b {c} {d} {xs} {ys} p q =
    ap (λ e. record b { captured = e } ∷ xs) p ∙ ap (λ zs. record b { captured = d } ∷ zs) q

mark_nil : (bs : List KncCaptureBinding) → map (mark []) bs ≡ bs
mark_nil [] = refl
mark_nil (b ∷ bs) = with_flag b (or_false b.captured) (mark_nil bs)

mark-set_captured :
    (a : ℕ) (addresses : List ℕ) (bs : List KncCaptureBinding)
    → map (mark addresses) (map (set_captured a) bs) ≡ map (mark (a ∷ addresses)) bs
mark-set_captured a addresses [] = refl
mark-set_captured a addresses (b ∷ bs) =
    with_flag b (or_assoc b.captured (b.address == a) (has_address b.address addresses))
      (mark-set_captured a addresses bs)

mark_twice :
    (addresses : List ℕ) (bs : List KncCaptureBinding)
    → map (mark addresses) (map (mark addresses) bs) ≡ map (mark addresses) bs
mark_twice addresses [] = refl
mark_twice addresses (b ∷ bs) =
    with_flag b (or_absorb b.captured (has_address b.address addresses)) (mark_twice addresses bs)

capture_loop-mark :
    (inner scope : List Visible) (bs : List KncCaptureBinding)
    → capture_loop inner scope bs ≡ map (mark (visible inner scope)) bs
unfolding capture_loop visible
capture_loop-mark inner [] bs = sym (mark_nil bs)
capture_loop-mark inner (v ∷ scope) bs =
    let ih = λ (cs : List KncCaptureBinding). capture_loop-mark (v ∷ inner) scope cs in
    elim (Bool-cases (is_shadowed inner v.name)) [
      | inl h ↦ rw h (ih bs)
      | inr h ↦ rw h (
          ih (map (set_captured v.address) bs)
          ∙ mark-set_captured v.address (visible (v ∷ inner) scope) bs)
    ]

-- Marking marks exactly the visible bindings.
pub capture_visible-mark :
    (plan : KncCapturePlan)
    → capture_visible_bindings plan
      ≡ record plan { bindings = map (mark (visible [] plan.scope)) plan.bindings }
unfolding capture_visible_bindings
capture_visible-mark plan =
    ap (λ bs. record plan { bindings = bs }) (capture_loop-mark [] plan.scope plan.bindings)

pub capture_visible_twice :
    (plan : KncCapturePlan)
    → capture_visible_bindings (capture_visible_bindings plan) ≡ capture_visible_bindings plan
unfolding capture_visible_bindings
capture_visible_twice plan =
    let addresses = visible [] plan.scope in
    let loop = capture_loop-mark [] plan.scope in
    let once = loop plan.bindings in
    let again =
      loop (capture_loop [] plan.scope plan.bindings)
      ∙ ap (map (mark addresses)) once
      ∙ mark_twice addresses plan.bindings
      ∙ sym once in
    ap (λ bs. record plan { bindings = bs }) again
