-- ===== src/KncCapture/Statements/Grown.antt =====
-- Lists of bindings that grow, each binding as it was or marked
-- (apps/kinal/src/kn_knc_capture.c).
use kinal.KncCapture.Marks.{mark, has_address}
use kinal.KncCapture.Plan.{KncCaptureBinding}
use kinal.Prelude.{
  ℕ, suc, Bool, true, false, ◌||◌, List, [], ◌∷◌, map, length, ◌≡◌, refl, sym, ap, subst, ◌∙◌,
}

-- The same bindings, each as it was or marked.
pub data Raised : List KncCaptureBinding → List KncCaptureBinding → Type 0 where
  raised_nil : Raised [] []
  raised_cons :
      {xs ys : List KncCaptureBinding} (b : KncCaptureBinding) (marks : Bool)
      → Raised xs ys
      → Raised (b ∷ xs) (record b { captured = b.captured || marks } ∷ ys)

-- New bindings in front, each numbered by those behind it, of bindings as they were or marked.
pub data Grows (xs : List KncCaptureBinding) : List KncCaptureBinding → Type 0 where
  grows_raised : {ys : List KncCaptureBinding} → Raised xs ys → Grows xs ys
  grows_new :
      {ys : List KncCaptureBinding} (b : KncCaptureBinding)
      → b.address ≡ length ys
      → Grows xs ys
      → Grows xs (b ∷ ys)

or_false_eq : (a : Bool) → (a || false) ≡ a
or_false_eq true = refl
or_false_eq false = refl

or_assoc_eq : (a b c : Bool) → ((a || b) || c) ≡ (a || (b || c))
or_assoc_eq true b c = refl
or_assoc_eq false b c = refl

pub Raised-refl : (xs : List KncCaptureBinding) → Raised xs xs
Raised-refl [] = raised_nil
Raised-refl (b ∷ xs) =
    subst (λ c. Raised (b ∷ xs) (record b { captured = c } ∷ xs)) (or_false_eq b.captured)
      (raised_cons b false (Raised-refl xs))

marked_twice :
    {xs ys : List KncCaptureBinding} (b : KncCaptureBinding) (m n : Bool)
    → Raised xs ys
    → Raised (b ∷ xs) (record b { captured = (b.captured || m) || n } ∷ ys)
marked_twice {xs} {ys} b m n r =
    subst (λ c. Raised (b ∷ xs) (record b { captured = c } ∷ ys)) (sym (or_assoc_eq b.captured m n))
      (raised_cons b (m || n) r)

Raised-trans : {xs ys zs : List KncCaptureBinding} → Raised xs ys → Raised ys zs → Raised xs zs
Raised-trans raised_nil r = r
Raised-trans (raised_cons b m q) (raised_cons _ n r) = marked_twice b m n (Raised-trans q r)

pub Raised-length : {xs ys : List KncCaptureBinding} → Raised xs ys → length xs ≡ length ys
Raised-length raised_nil = refl
Raised-length (raised_cons b m r) = ap suc (Raised-length r)

Grows-Raised : {xs ys zs : List KncCaptureBinding} → Grows xs ys → Raised ys zs → Grows xs zs
Grows-Raised (grows_raised q) r = grows_raised (Raised-trans q r)
Grows-Raised (grows_new b a g) (raised_cons _ m r) =
    grows_new (record b { captured = b.captured || m }) (a ∙ Raised-length r) (Grows-Raised g r)

pub Grows-trans : {xs ys zs : List KncCaptureBinding} → Grows xs ys → Grows ys zs → Grows xs zs
Grows-trans g (grows_raised r) = Grows-Raised g r
Grows-trans g (grows_new b a h) = grows_new b a (Grows-trans g h)

pub map-mark-Raised :
    (addresses : List ℕ) (bs : List KncCaptureBinding) → Raised bs (map (mark addresses) bs)
map-mark-Raised addresses [] = raised_nil
map-mark-Raised addresses (b ∷ bs) =
    raised_cons b (has_address b.address addresses) (map-mark-Raised addresses bs)
