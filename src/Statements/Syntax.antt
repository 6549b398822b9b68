-- ===== src/Statements/Syntax.antt =====
-- src/statements.h: the statements of slang that StatementExecutor handles. An expression and a
-- subroutine are numbers that identify them.
use yosys_slang.Base.{ℕ, Option, List}
use yosys_slang.Base.Int.{ℤ}
use yosys_slang.Variables.{Symbol}

abbrev pub Expr : Type 0
Expr = ℕ

pub data CaseCondition : Type 0 where
  normal wildcard_just_z wildcard_x_or_z inside : CaseCondition

pub data UniquePriorityCheck : Type 0 where
  no_check unique unique0 priority : UniquePriorityCheck

pub record DimRange : Type 0 where
  pub left : ℤ
  pub right : ℤ

-- `ForeachLoopStatement::LoopDim`.
pub record LoopDim : Type 0 where
  pub loop_var : Option Symbol
  pub range : Option DimRange

mutual
  pub data Stmt : Type 0 where
    expression_statement : Expr → Stmt
    block : Option ℕ → Stmt → Stmt
    statement_list : Stmts → Stmt
    conditional : Expr → Stmt → MaybeStmt → Stmt
    case_statement : CaseCondition → UniquePriorityCheck → Expr → Items → MaybeStmt → Stmt
    while_loop : Expr → Stmt → Stmt
    for_loop : List Expr → Option Expr → List Expr → Stmt → Stmt
    foreach_loop : List LoopDim → Stmt → Stmt
    variable_decl : Symbol → Stmt
    return_statement : Option Expr → Stmt
    timed : Stmt → Stmt
    break_statement continue_statement empty wait_statement unsupported_statement : Stmt

  pub data Stmts : Type 0 where
    no_stmt : Stmts
    add_stmt : Stmt → Stmts → Stmts

  pub data MaybeStmt : Type 0 where
    absent : MaybeStmt
    present : Stmt → MaybeStmt

  pub data Items : Type 0 where
    no_item : Items
    add_item : List Expr → Stmt → Items → Items
