-- ===== src/KncCapture/Syntax.antt =====
-- The syntax trees that the capture plan scans (apps/kinal/include/kn/ast.h): the constructors are
-- the kinds of `Expr` and `Stmt`, each with the fields that apps/kinal/src/kn_knc_capture.c
-- reads. A null pointer is `no_expr` or `no_stmt`, and the identity of a statement or a
-- parameter, its address, is a number.
use kinal.Prelude.{ℕ, Bool, Option, Bytes}

mutual
  -- The items of an `ExprList`.
  pub data ExprList : Type 0 where
    nil_expr : ExprList
    cons_expr : Expr → ExprList → ExprList

  -- The `match` and the `body` of each `ExprSwitchCase`.
  pub data ExprSwitchCaseList : Type 0 where
    nil_case : ExprSwitchCaseList
    cons_case : Expr → Expr → ExprSwitchCaseList → ExprSwitchCaseList

  pub data Expr : Type 0 where
    no_expr : Expr
    expr_int : Expr
    expr_float : Expr
    expr_bool : Expr
    expr_char : Expr
    expr_default : Expr
    expr_null : Expr
    expr_string : Expr
    expr_var : Expr
    -- The arguments.
    expr_call : ExprList → Expr
    -- The receiver and the arguments.
    expr_member_call : Expr → ExprList → Expr
    -- The left and the right operand.
    expr_binary : Expr → Expr → Expr
    expr_unary : Expr → Expr
    expr_array : ExprList → Expr
    expr_package : ExprList → Expr
    -- The keys and the values.
    expr_dict : ExprList → ExprList → Expr
    -- The target and the value.
    expr_assign : Expr → Expr → Expr
    expr_member : Expr → Expr
    -- The receiver and the index.
    expr_index : Expr → Expr → Expr
    -- The condition and the two branches.
    expr_if : Expr → Expr → Expr → Expr
    expr_switch : Expr → ExprSwitchCaseList → Expr
    expr_is : Expr → Expr
    expr_this : Expr
    expr_base : Expr
    expr_new : ExprList → Expr
    expr_cast : Expr → Expr
    expr_func_ref : Expr
    -- The callee and the arguments.
    expr_invoke : Expr → ExprList → Expr
    -- The body of a literal is planned on its own, and not read here.
    expr_anon_func : Expr
    expr_block_literal : Expr
    expr_await : Expr → Expr

mutual
  -- The items of a `StmtList`.
  pub data StmtList : Type 0 where
    nil_stmt : StmtList
    cons_stmt : Stmt → StmtList → StmtList

  -- The `match` and the `body` of each `StmtSwitchCase`.
  pub data StmtSwitchCaseList : Type 0 where
    nil_arm : StmtSwitchCaseList
    cons_arm : Expr → Stmt → StmtSwitchCaseList → StmtSwitchCaseList

  pub data Stmt : Type 0 where
    no_stmt : Stmt
    st_block : StmtList → Stmt
    -- The statement's identity, the name and the initial value.
    st_var : ℕ → Bytes → Expr → Stmt
    st_assign : Expr → Stmt
    st_expr : Expr → Stmt
    -- A condition that is a constant, and the two branches.
    st_if_const : Bool → Stmt → Stmt → Stmt
    -- The statement's identity, the condition, the name of its pattern, and the two branches.
    st_if : ℕ → Expr → Option Bytes → Stmt → Stmt → Stmt
    st_switch : Expr → StmtSwitchCaseList → Stmt
    -- The condition and the body.
    st_while : Expr → Stmt → Stmt
    -- The start, the condition, the step and the body.
    st_for : Stmt → Expr → Expr → Stmt → Stmt
    st_return : Expr → Stmt
    st_break : Stmt
    st_continue : Stmt
    -- The statement's identity, the two blocks, and the parameter's name.
    st_try : ℕ → Stmt → Stmt → Option Bytes → Stmt
    st_throw : Expr → Stmt
    st_block_record : Stmt
    st_block_jump : Expr → Stmt

-- A parameter: its identity and its name.
pub record Param : Type 0 where
  pub identity : ℕ
  pub name : Bytes
