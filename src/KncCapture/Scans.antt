-- ===== src/KncCapture/Scans.antt =====
-- The scan of an expression and of a statement (apps/kinal/src/kn_knc_capture.c), against what
-- they are for: an expression marks the visible bindings when it has a literal, and a statement
-- leaves the scope as it was, but for the name that it declares itself.
use kinal.KncCapture.{scan_expression, scan_expressions, scan_cases}
use kinal.KncCapture.Marks.{capture_visible_twice}
use kinal.KncCapture.Plan.{KncCapturePlan, capture_visible_bindings}
use kinal.KncCapture.Syntax.{Expr, ExprList, ExprSwitchCaseList}
use kinal.Prelude.{Bool, true, false, ◌||◌, if◌then◌else◌, ◌≡◌, refl, ap, ◌∙◌}

unfoldable mutual
  pub has_literal : Expr → Bool
  has_literal Expr.expr_anon_func = true
  has_literal Expr.expr_block_literal = true
  has_literal (Expr.expr_call args) = have_literal args
  has_literal (Expr.expr_member_call recv args) = has_literal recv || have_literal args
  has_literal (Expr.expr_invoke callee args) = has_literal callee || have_literal args
  has_literal (Expr.expr_binary left right) = has_literal left || has_literal right
  has_literal (Expr.expr_unary e) = has_literal e
  has_literal (Expr.expr_array items) = have_literal items
  has_literal (Expr.expr_package items) = have_literal items
  has_literal (Expr.expr_dict keys values) = have_literal keys || have_literal values
  has_literal (Expr.expr_assign target value) = has_literal target || has_literal value
  has_literal (Expr.expr_member recv) = has_literal recv
  has_literal (Expr.expr_index recv index) = has_literal recv || has_literal index
  has_literal (Expr.expr_if cond first second) =
      (has_literal cond || has_literal first) || has_literal second
  has_literal (Expr.expr_switch value cases) = has_literal value || cases_have_literal cases
  has_literal (Expr.expr_is e) = has_literal e
  has_literal (Expr.expr_new args) = have_literal args
  has_literal (Expr.expr_cast e) = has_literal e
  has_literal (Expr.expr_await e) = has_literal e
  has_literal e = false

  pub have_literal : ExprList → Bool
  have_literal ExprList.nil_expr = false
  have_literal (ExprList.cons_expr e es) = has_literal e || have_literal es

  pub cases_have_literal : ExprSwitchCaseList → Bool
  cases_have_literal ExprSwitchCaseList.nil_case = false
  cases_have_literal (ExprSwitchCaseList.cons_case m b cs) =
      (has_literal m || has_literal b) || cases_have_literal cs

-- Marking when there is something to mark.
abbrev marked : Bool → KncCapturePlan → KncCapturePlan
marked true plan = capture_visible_bindings plan
marked false plan = plan

-- Marking for one part and then for another is marking for both.
marked-marked :
    (a b : Bool) (plan : KncCapturePlan) → marked b (marked a plan) ≡ marked (a || b) plan
marked-marked true true plan = capture_visible_twice plan
marked-marked true false plan = refl
marked-marked false b plan = refl

-- A scan of one part followed by a scan of another.
two_scans :
    {p q : KncCapturePlan} (plan : KncCapturePlan) (a b : Bool)
    → p ≡ marked a plan
    → q ≡ marked b p
    → q ≡ marked (a || b) plan
two_scans plan a b h k = k ∙ ap (marked b) h ∙ marked-marked a b plan

mutual
  unfolding scan_expression scan_expressions scan_cases has_literal have_literal cases_have_literal

  expression : (p : KncCapturePlan) (e : Expr) → scan_expression p e ≡ marked (has_literal e) p
  expression p Expr.expr_anon_func = refl
  expression p Expr.expr_block_literal = refl
  expression p (Expr.expr_call args) = expressions p args
  expression p (Expr.expr_member_call r xs) =
      two_scans _ _ _ (expression p r) (expressions (scan_expression p r) xs)
  expression p (Expr.expr_invoke r xs) =
      two_scans _ _ _ (expression p r) (expressions (scan_expression p r) xs)
  expression p (Expr.expr_binary a b) =
      two_scans _ _ _ (expression p a) (expression (scan_expression p a) b)
  expression p (Expr.expr_unary e) = expression p e
  expression p (Expr.expr_array items) = expressions p items
  expression p (Expr.expr_package items) = expressions p items
  expression p (Expr.expr_dict ks vs) =
      two_scans _ _ _ (expressions p ks) (expressions (scan_expressions p ks) vs)
  expression p (Expr.expr_assign a b) =
      two_scans _ _ _ (expression p a) (expression (scan_expression p a) b)
  expression p (Expr.expr_member e) = expression p e
  expression p (Expr.expr_index a b) =
      two_scans _ _ _ (expression p a) (expression (scan_expression p a) b)
  expression p (Expr.expr_if a b c) =
      let q = scan_expression p a in
      two_scans _ _ _ (two_scans _ _ _ (expression p a) (expression q b))
        (expression (scan_expression q b) c)
  expression p (Expr.expr_switch v cs) =
      two_scans _ _ _ (expression p v) (cases (scan_expression p v) cs)
  expression p (Expr.expr_is e) = expression p e
  expression p (Expr.expr_new args) = expressions p args
  expression p (Expr.expr_cast e) = expression p e
  expression p (Expr.expr_await e) = expression p e
  expression p Expr.no_expr = refl
  expression p Expr.expr_int = refl
  expression p Expr.expr_float = refl
  expression p Expr.expr_bool = refl
  expression p Expr.expr_char = refl
  expression p Expr.expr_default = refl
  expression p Expr.expr_null = refl
  expression p Expr.expr_string = refl
  expression p Expr.expr_var = refl
  expression p Expr.expr_this = refl
  expression p Expr.expr_base = refl
  expression p Expr.expr_func_ref = refl

  expressions :
      (p : KncCapturePlan) (es : ExprList) → scan_expressions p es ≡ marked (have_literal es) p
  expressions p ExprList.nil_expr = refl
  expressions p (ExprList.cons_expr e es) =
      two_scans _ _ _ (expression p e) (expressions (scan_expression p e) es)

  cases :
      (p : KncCapturePlan) (cs : ExprSwitchCaseList)
      → scan_cases p cs ≡ marked (cases_have_literal cs) p
  cases p ExprSwitchCaseList.nil_case = refl
  cases p (ExprSwitchCaseList.cons_case m b cs) =
      let q = scan_expression p m in
      two_scans _ _ _ (two_scans _ _ _ (expression p m) (expression q b))
        (cases (scan_expression q b) cs)

-- Scanning an expression marks the bindings that are visible, once, when a function or block
-- literal stands anywhere in it outside another literal, and changes nothing when none does.
pub scan_expression-has_literal :
    (plan : KncCapturePlan) (e : Expr)
    → scan_expression plan e ≡ (if has_literal e then capture_visible_bindings plan else plan)
scan_expression-has_literal plan e = expression plan e ∙ as_if (has_literal e)
  where
    as_if : (b : Bool) → marked b plan ≡ (if b then capture_visible_bindings plan else plan)
    as_if true = refl
    as_if false = refl
