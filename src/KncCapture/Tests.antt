-- ===== src/KncCapture/Tests.antt =====
-- A function with two variables of one name, of which a literal sees the inner one.
use kinal.CString.{kn_strlen, strlen_loop, kn_strncmp, compare_bytes, kn_strcmp}
use kinal.KncCapture.Plan.{
  KncCapturePlan, declare_binding, capture_visible_bindings, capture_loop, is_shadowed, same_name,
}
use kinal.KncCapture.Scans.{has_literal, scan_expression-has_literal}
use kinal.KncCapture.Statements.{Scans, scope_after, scan_statement-Scans}
use kinal.KncCapture.Syntax.{Expr, ExprList, Stmt, StmtList, Param}
use kinal.KncCapture.{
  scan_expression, scan_statement, knc_capture_plan_create, knc_capture_plan_contains,
  declare_params, find_binding, is_declaration,
}
use kinal.Prelude.{Bool, true, false, none, some, List, [], ◌∷◌, codes, if◌then◌else◌, ◌≡◌, refl}

abbrev literal_call : Expr
literal_call = Expr.expr_call (ExprList.cons_expr Expr.expr_anon_func ExprList.nil_expr)

abbrev function_body : Stmt
function_body = Stmt.st_block (
    StmtList.cons_stmt (Stmt.st_var 1 (codes "x") Expr.expr_int) (
      StmtList.cons_stmt
        (Stmt.st_block (
          StmtList.cons_stmt (Stmt.st_var 2 (codes "x") Expr.expr_int)
            (StmtList.cons_stmt (Stmt.st_expr literal_call) StmtList.nil_stmt)))
        (StmtList.cons_stmt (Stmt.st_var 3 (codes "y") Expr.expr_int) StmtList.nil_stmt)))

abbrev params : List Param
params = record { identity = 7; name = codes "p" } ∷ []

abbrev plan : KncCapturePlan
unfolding knc_capture_plan_create scan_statement scan_expression declare_params declare_binding
    capture_visible_bindings capture_loop is_shadowed same_name kn_strcmp kn_strlen strlen_loop
    kn_strncmp compare_bytes
plan = knc_capture_plan_create function_body params true

captured : List Bool
unfolding plan find_binding knc_capture_plan_contains is_declaration
captured =
    knc_capture_plan_contains (some plan) none
    ∷ knc_capture_plan_contains (some plan) (some 7)
    ∷ knc_capture_plan_contains (some plan) (some 1)
    ∷ knc_capture_plan_contains (some plan) (some 2)
    ∷ knc_capture_plan_contains (some plan) (some 3)
    ∷ []

captured_lem : captured ≡ true ∷ true ∷ false ∷ true ∷ false ∷ []
unfolding captured
captured_lem = refl

abbrev start : KncCapturePlan
unfolding declare_binding
start = declare_binding (record { bindings = []; scope = [] }) (some 1) (codes "x")

scan_expression-has_literal_example :
    scan_expression start literal_call
    ≡ (if has_literal literal_call then capture_visible_bindings start else start)
scan_expression-has_literal_example = scan_expression-has_literal start literal_call

scan_statement-Scans_example :
    Scans start (scope_after start function_body) (scan_statement start function_body)
scan_statement-Scans_example = scan_statement-Scans start function_body
