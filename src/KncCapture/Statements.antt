-- ===== src/KncCapture/Statements.antt =====
-- What the scan of a statement does to a plan (apps/kinal/src/kn_knc_capture.c, scan_statement):
-- the bindings only grow, and the scope is the one before, but for the name that a statement
-- declares for those behind it.
pub mod Grown
pub use Grown.{Raised, Grows}
use kinal.KncCapture.Statements.Grown.{
  grows_raised, grows_new, Raised-refl, Raised-length, Grows-trans, map-mark-Raised,
}
use kinal.KncCapture.{scan_expression, scan_statement, scan_statements, scan_arms, declare_named}
use kinal.KncCapture.Marks.{mark, visible, has_address, capture_visible-mark}
use kinal.KncCapture.Plan.{
  KncCapturePlan, KncCaptureBinding, Visible, declare_binding, capture_visible_bindings, restore,
}
use kinal.KncCapture.Scans.{has_literal, scan_expression-has_literal}
use kinal.KncCapture.Syntax.{Expr, Stmt, StmtList, StmtSwitchCaseList}
use kinal.Prelude.{
  ℕ, suc, Bool, true, false, ◌||◌, if◌then◌else◌, Option, none, some, List, [], ◌∷◌, Bytes, map,
  length, ◌≡◌, refl, sym, ap, subst, ◌∙◌,
}

-- From `plan` to `p` the bindings grow, and the scope of `p` is `scope`.
pub record Scans (plan : KncCapturePlan) (scope : List Visible) (p : KncCapturePlan) : Type 0 where
  pub grows : Grows plan.bindings p.bindings
  pub scope_is : p.scope ≡ scope

nothing : (plan : KncCapturePlan) → Scans plan plan.scope plan
nothing plan = record { grows = grows_raised (Raised-refl plan.bindings); scope_is = refl }

-- One scan and then another.
behind :
    {plan p q : KncCapturePlan} {scope other : List Visible}
    → Scans plan scope p
    → Scans p other q
    → Scans plan other q
behind a b = record { grows = Grows-trans a.grows b.grows; scope_is = b.scope_is }

-- A scan whose scope is given up for the saved one.
restored :
    {plan p : KncCapturePlan} {scope : List Visible} (saved : KncCapturePlan)
    → Scans plan scope p
    → Scans plan saved.scope (restore saved p)
restored saved a = record { grows = a.grows; scope_is = refl }

capture_visible-Scans :
    (plan : KncCapturePlan) → Scans plan plan.scope (capture_visible_bindings plan)
capture_visible-Scans plan =
    rw (capture_visible-mark plan)
      (record { grows = grows_raised (map-mark-Raised _ plan.bindings); scope_is = refl })

expression-Scans :
    (plan : KncCapturePlan) (e : Expr) → Scans plan plan.scope (scan_expression plan e)
expression-Scans plan e =
    rw (scan_expression-has_literal plan e)
      (elim (has_literal e)
        as (λ b. Scans plan plan.scope (if b then capture_visible_bindings plan else plan)) [
          | true ↦ capture_visible-Scans plan
          | false ↦ nothing plan
        ])

-- The entry that a new binding adds to the scope.
abbrev declared : KncCapturePlan → Bytes → List Visible
declared plan name = record { address = length plan.bindings; name = name } ∷ plan.scope

declare-Scans :
    (plan : KncCapturePlan) (d : Option ℕ) (name : Bytes)
    → Scans plan (declared plan name) (declare_binding plan d name)
unfolding declare_binding
declare-Scans plan d name = record {
  grows = grows_new _ refl (grows_raised (Raised-refl plan.bindings));
  scope_is = refl;
}

expression-declared :
    (plan : KncCapturePlan) (e : Expr) (name : Bytes)
    → declared (scan_expression plan e) name ≡ declared plan name
expression-declared plan e name =
    rw (scan_expression-has_literal plan e)
      (elim (has_literal e)
        as (λ b.
          declared (if b then capture_visible_bindings plan else plan) name ≡ declared plan name) [
            | true ↦ rw (
              capture_visible-mark plan,
              sym (Raised-length (map-mark-Raised (visible [] plan.scope) plan.bindings)),
            )
            | false ↦ refl
          ])

-- The scope behind a statement.
abbrev pub scope_after : KncCapturePlan → Stmt → List Visible
scope_after plan (Stmt.st_var id name init) = declared plan name
scope_after plan s = plan.scope

named-Scans :
    (plan : KncCapturePlan) (id : ℕ) (name : Option Bytes)
    → (scope : List Visible) × Scans plan scope (declare_named plan id name)
named-Scans plan id none = (plan.scope, nothing plan)
named-Scans plan id (some name) = (declared plan name, declare-Scans plan (some id) name)

mutual
  unfolding scan_statement scan_statements scan_arms

  statement :
      (plan : KncCapturePlan) (s : Stmt) → Scans plan (scope_after plan s) (scan_statement plan s)
  statement plan (Stmt.st_block ss) = let (scope, r) = statements plan ss in restored plan r
  statement plan (Stmt.st_var id name init) =
      subst (λ scope. Scans plan scope (scan_statement plan (Stmt.st_var id name init)))
        (expression-declared plan init name)
        (behind (expression-Scans plan init)
          (declare-Scans (scan_expression plan init) (some id) name))
  statement plan (Stmt.st_assign e) = expression-Scans plan e
  statement plan (Stmt.st_expr e) = expression-Scans plan e
  statement plan (Stmt.st_return e) = expression-Scans plan e
  statement plan (Stmt.st_throw e) = expression-Scans plan e
  statement plan (Stmt.st_if_const true a b) = restored plan (statement plan a)
  statement plan (Stmt.st_if_const false a b) = restored plan (statement plan b)
  statement plan (Stmt.st_if id cond pattern a b) =
      let named = declare_named (scan_expression plan cond) id pattern in
      let (scope, n) = named-Scans (scan_expression plan cond) id pattern in
      let first =
        restored plan (behind (behind (expression-Scans plan cond) n) (statement named a)) in
      let second = statement (restore plan (scan_statement named a)) b in
      restored plan (behind first second)
  statement plan (Stmt.st_switch value cs) = arms plan (expression-Scans plan value) cs
  statement plan (Stmt.st_while cond body) =
      restored plan
        (behind (expression-Scans plan cond) (statement (scan_expression plan cond) body))
  statement plan (Stmt.st_for init cond post body) =
      let start = scan_statement plan init in
      let head = scan_expression start cond in
      let looped = scan_statement head body in
      restored plan (
        behind
          (behind (behind (statement plan init) (expression-Scans start cond))
            (statement head body))
          (expression-Scans looped post))
  statement plan (Stmt.st_try id a b name) =
      let tried = restore plan (scan_statement plan a) in
      let (scope, n) = named-Scans tried id name in
      restored plan (
        behind (behind (restored plan (statement plan a)) n)
          (statement (declare_named tried id name) b))
  statement plan (Stmt.st_block_jump e) = expression-Scans plan e
  statement plan Stmt.no_stmt = nothing plan
  statement plan Stmt.st_break = nothing plan
  statement plan Stmt.st_continue = nothing plan
  statement plan Stmt.st_block_record = nothing plan

  statements :
      (plan : KncCapturePlan) (ss : StmtList)
      → (scope : List Visible) × Scans plan scope (scan_statements plan ss)
  statements plan StmtList.nil_stmt = (plan.scope, nothing plan)
  statements plan (StmtList.cons_stmt s ss) =
      let (scope, r) = statements (scan_statement plan s) ss in (scope, behind (statement plan s) r)

  arms :
      (saved : KncCapturePlan) {p : KncCapturePlan}
      → Scans saved saved.scope p
      → (cs : StmtSwitchCaseList) → Scans saved saved.scope (scan_arms saved p cs)
  arms saved r StmtSwitchCaseList.nil_arm = r
  arms saved {p} r (StmtSwitchCaseList.cons_arm m b cs) =
      arms saved
        (restored saved
          (behind (behind r (expression-Scans p m)) (statement (scan_expression p m) b)))
        cs

-- Scanning a statement keeps every binding, in its place and marked if it was; the new ones are
-- numbered in order in front of them. The scope is the one before, but behind a declaration of a
-- variable, where it has that name in front, with the number of the variable's binding.
pub scan_statement-Scans :
    (plan : KncCapturePlan) (s : Stmt) → Scans plan (scope_after plan s) (scan_statement plan s)
scan_statement-Scans plan s = statement plan s
