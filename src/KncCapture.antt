-- ===== src/KncCapture.antt =====
-- The capture plan of a function (apps/kinal/src/kn_knc_capture.c): which of its variables a
-- literal in it sees, and so need a cell on the heap.
pub mod Syntax
pub mod Plan
pub mod Marks
pub mod Scans
pub mod Statements
mod Tests
use kinal.KncCapture.Plan.{
  KncCapturePlan, KncCaptureBinding, declare_binding, capture_visible_bindings, restore,
}
use kinal.KncCapture.Syntax.{
  Expr, ExprList, ExprSwitchCaseList, Stmt, StmtList, StmtSwitchCaseList, Param,
}
use kinal.Prelude.{
  ℕ, Bool, true, false, if◌then◌else◌, Option, none, some, List, [], ◌∷◌, Bytes, codes, ◌==◌,
}

unfoldable mutual
  pub scan_expressions : KncCapturePlan → ExprList → KncCapturePlan
  scan_expressions plan ExprList.nil_expr = plan
  scan_expressions plan (ExprList.cons_expr e es) = scan_expressions (scan_expression plan e) es

  pub scan_cases : KncCapturePlan → ExprSwitchCaseList → KncCapturePlan
  scan_cases plan ExprSwitchCaseList.nil_case = plan
  scan_cases plan (ExprSwitchCaseList.cons_case m b cs) =
      scan_cases (scan_expression (scan_expression plan m) b) cs

  pub scan_expression : KncCapturePlan → Expr → KncCapturePlan
  scan_expression plan Expr.expr_anon_func = capture_visible_bindings plan
  scan_expression plan Expr.expr_block_literal = capture_visible_bindings plan
  scan_expression plan (Expr.expr_call args) = scan_expressions plan args
  scan_expression plan (Expr.expr_member_call recv args) =
      scan_expressions (scan_expression plan recv) args
  scan_expression plan (Expr.expr_invoke callee args) =
      scan_expressions (scan_expression plan callee) args
  scan_expression plan (Expr.expr_binary left right) =
      scan_expression (scan_expression plan left) right
  scan_expression plan (Expr.expr_unary e) = scan_expression plan e
  scan_expression plan (Expr.expr_array items) = scan_expressions plan items
  scan_expression plan (Expr.expr_package items) = scan_expressions plan items
  scan_expression plan (Expr.expr_dict keys values) =
      scan_expressions (scan_expressions plan keys) values
  scan_expression plan (Expr.expr_assign target value) =
      scan_expression (scan_expression plan target) value
  scan_expression plan (Expr.expr_member recv) = scan_expression plan recv
  scan_expression plan (Expr.expr_index recv index) =
      scan_expression (scan_expression plan recv) index
  scan_expression plan (Expr.expr_if cond then_expr else_expr) =
      scan_expression (scan_expression (scan_expression plan cond) then_expr) else_expr
  scan_expression plan (Expr.expr_switch value cases) =
      scan_cases (scan_expression plan value) cases
  scan_expression plan (Expr.expr_is e) = scan_expression plan e
  scan_expression plan (Expr.expr_new args) = scan_expressions plan args
  scan_expression plan (Expr.expr_cast e) = scan_expression plan e
  scan_expression plan (Expr.expr_await e) = scan_expression plan e
  scan_expression plan e = plan

-- A binding for the statement `id`, when it names one.
abbrev pub declare_named : KncCapturePlan → ℕ → Option Bytes → KncCapturePlan
declare_named plan id none = plan
declare_named plan id (some name) = declare_binding plan (some id) name

unfoldable mutual
  unfolding scan_expression

  pub scan_statements : KncCapturePlan → StmtList → KncCapturePlan
  scan_statements plan StmtList.nil_stmt = plan
  scan_statements plan (StmtList.cons_stmt s ss) = scan_statements (scan_statement plan s) ss

  pub scan_arms : KncCapturePlan → KncCapturePlan → StmtSwitchCaseList → KncCapturePlan
  scan_arms saved plan StmtSwitchCaseList.nil_arm = plan
  scan_arms saved plan (StmtSwitchCaseList.cons_arm m b cs) =
      scan_arms saved (restore saved (scan_statement (scan_expression plan m) b)) cs

  pub scan_statement : KncCapturePlan → Stmt → KncCapturePlan
  scan_statement plan (Stmt.st_block stmts) = restore plan (scan_statements plan stmts)
  scan_statement plan (Stmt.st_var id name init) =
      declare_binding (scan_expression plan init) (some id) name
  scan_statement plan (Stmt.st_assign value) = scan_expression plan value
  scan_statement plan (Stmt.st_expr e) = scan_expression plan e
  scan_statement plan (Stmt.st_return e) = scan_expression plan e
  scan_statement plan (Stmt.st_throw e) = scan_expression plan e
  scan_statement plan (Stmt.st_if_const true then_s else_s) =
      restore plan (scan_statement plan then_s)
  scan_statement plan (Stmt.st_if_const false then_s else_s) =
      restore plan (scan_statement plan else_s)
  scan_statement plan (Stmt.st_if id cond pattern then_s else_s) =
      let named = declare_named (scan_expression plan cond) id pattern in
      let first = restore plan (scan_statement named then_s) in
      restore plan (scan_statement first else_s)
  scan_statement plan (Stmt.st_switch value cases) =
      scan_arms plan (scan_expression plan value) cases
  scan_statement plan (Stmt.st_while cond body) =
      restore plan (scan_statement (scan_expression plan cond) body)
  scan_statement plan (Stmt.st_for init cond post body) =
      let head = scan_expression (scan_statement plan init) cond in
      restore plan (scan_expression (scan_statement head body) post)
  scan_statement plan (Stmt.st_try id try_block catch_block catch_name) =
      let tried = restore plan (scan_statement plan try_block) in
      restore plan (scan_statement (declare_named tried id catch_name) catch_block)
  scan_statement plan (Stmt.st_block_jump target) = scan_expression plan target
  scan_statement plan s = plan

unfoldable pub declare_params : KncCapturePlan → List Param → KncCapturePlan
declare_params plan [] = plan
declare_params plan (p ∷ ps) = declare_params (declare_binding plan (some p.identity) p.name) ps

abbrev empty_plan : KncCapturePlan
empty_plan = record { bindings = []; scope = [] }

-- No parameter list and an empty one are the same here.
unfoldable pub knc_capture_plan_create : Stmt → List Param → Bool → KncCapturePlan
knc_capture_plan_create body params has_receiver =
    let start =
      if has_receiver then declare_binding empty_plan none (codes "This") else empty_plan in
    scan_statement (declare_params start params) body

unfoldable pub is_declaration : Option ℕ → Option ℕ → Bool
is_declaration none none = true
is_declaration (some a) (some b) = a == b
is_declaration a b = false

unfoldable pub find_binding : List KncCaptureBinding → Option ℕ → Bool
find_binding [] declaration = false
find_binding (b ∷ bs) declaration = elim (is_declaration b.declaration declaration) [
  | true ↦ b.captured
  | false ↦ find_binding bs declaration
]

unfoldable pub knc_capture_plan_contains : Option KncCapturePlan → Option ℕ → Bool
knc_capture_plan_contains none declaration = false
knc_capture_plan_contains (some plan) declaration = find_binding plan.bindings declaration
