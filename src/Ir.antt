-- ===== src/Ir.antt =====
-- veripy/ir.py: the hardware IR, one constructor for each dataclass, its fields in order.
-- Operators are spelled in words. A Python list of nodes is the list type of its own block, which
-- a data type that holds lists of itself needs.
pub mod Width
pub mod Value
pub mod Meaning
pub mod Frame
use veripy.Base.{ℕ, String, List, Bool, Option}
use veripy.Base.Int.{ℤ}

-- '+', '-', '*', '/', '%', '&', '|', '^', '<<', '>>', '>>>'
pub data BinaryOp : Type 0 where
  plus minus times over modulo band bor bxor shl shr ashr : BinaryOp

-- '~', '!', '-'
pub data UnaryOp : Type 0 where
  invert lnot negate : UnaryOp

-- '==', '!=', '<', '>', '<=', '>='
pub data CompareOp : Type 0 where
  eq ne lt gt le ge : CompareOp

-- '&&', '||'
pub data BoolOp : Type 0 where
  land lor : BoolOp

-- `slice_lo s lo` is `Slice(s, None, lo)`.
mutual
  pub data Expr : Type 0 where
    const : ℤ → Expr
    param : String → Expr
    sig : String → Expr
    bin_op : BinaryOp → Expr → Expr → Expr
    unary_op : UnaryOp → Expr → Expr
    compare : CompareOp → Expr → Expr → Expr
    bool_op : BoolOp → Exprs → Expr
    mux : Expr → Expr → Expr → Expr
    slice : Expr → Expr → Expr → Expr
    slice_lo : Expr → Expr → Expr
    index : Expr → Expr → Expr
    concat : Exprs → Expr
    clz : Expr → ℕ → Expr
    ctz : Expr → ℕ → Expr
    popcount : Expr → ℕ → Expr
    sext : Expr → ℕ → ℕ → Expr

  pub data Exprs : Type 0 where
    enil : Exprs
    econs : Expr → Exprs → Exprs

-- `group` is no node of ir.py: it is a Python list that stands where a statement is expected,
-- which `_subst_stmt` of dce.py makes. An absent `default` or `else_body` is the empty list, as
-- every reader of these fields takes it.
mutual
  pub data Stmt : Type 0 where
    assign : String → Expr → Bool → Stmt
    slice_assign : String → Expr → Expr → Expr → Bool → Stmt
    if_else : Expr → Stmts → Stmts → Stmt
    case : Expr → Cases → Stmts → Stmt
    mem_write : String → Expr → Expr → Bool → Stmt
    delay : Expr → Stmt
    display : String → Exprs → Stmt
    finish : Stmt
    repeat : Expr → Stmts → String → Stmt
    for_loop : String → Expr → Expr → Stmts → String → Stmt
    disable : String → Stmt
    group : Stmts → Stmt

  pub data Stmts : Type 0 where
    snil : Stmts
    scons : Stmt → Stmts → Stmts

  pub data Cases : Type 0 where
    cnil : Cases
    ccons : Expr → Stmts → Cases → Cases

-- `xs.extend(ys)`
abbrev pub extend : Stmts → Stmts → Stmts
extend snil ys = ys
extend (scons x xs) ys = scons x (extend xs ys)

pub data EdgeKind : Type 0 where
  posedge negedge : EdgeKind

pub data Direction : Type 0 where
  input output inout : Direction

-- The local variables of a block are a dictionary from names to widths.
pub record CombBlock : Type 0 where
  pub stmts : Stmts
  pub locals : List (String × ℕ)

pub record SeqBlock : Type 0 where
  pub edges : List (EdgeKind × String)
  pub stmts : Stmts
  pub locals : List (String × ℕ)

pub record ContAssign : Type 0 where
  pub target : String
  pub value : Expr

pub record Port : Type 0 where
  pub name : String
  pub direction : Direction
  pub width : ℕ
  pub is_reg : Bool

pub record WireDecl : Type 0 where
  pub name : String
  pub width : ℕ

pub record RegDecl : Type 0 where
  pub name : String
  pub width : ℕ

-- The ports of a memory, as signal names.
pub record DualPorts : Type 0 where
  pub clock : String
  pub we : String
  pub waddr : String
  pub wdata : String
  pub raddr : String
  pub rdata : String

pub record TrueDualPort : Type 0 where
  pub clk : String
  pub we : String
  pub addr : String
  pub din : String
  pub dout : String

-- MemDecl, DualPortMemDecl and TrueDualPortMemDecl: name, depth, width and ports.
pub data MemDecl : Type 0 where
  mem : String → ℕ → ℕ → MemDecl
  dual_port : String → ℕ → ℕ → DualPorts → MemDecl
  true_dual_port : String → ℕ → ℕ → TrueDualPort → TrueDualPort → MemDecl

-- The value of a parameter: an integer, or the name of a parameter that it is to be read from.
pub data ParamValue : Type 0 where
  number : ℤ → ParamValue
  named : String → ParamValue

pub record Instance : Type 0 where
  pub mod_type : String
  pub inst_name : String
  pub params : List (String × ParamValue)
  pub ports : List (String × String)

pub data PropertyKind : Type 0 where
  assert cover assume : PropertyKind

pub record FormalProperty : Type 0 where
  pub kind : PropertyKind
  pub clock : String
  pub edge : EdgeKind
  pub expr : Expr
  pub name : String

-- The fields that the passes of flatten.py and dce.py read; widths are resolved numbers.
pub record IrModule : Type 0 where
  pub name : String
  pub params : List (String × ParamValue)
  pub ports : List Port
  pub wires : List WireDecl
  pub regs : List RegDecl
  pub mems : List MemDecl
  pub instances : List Instance
  pub assigns : List ContAssign
  pub comb_blocks : List CombBlock
  pub seq_blocks : List SeqBlock
  pub initial_blocks : List Stmts
  pub always_blocks : List Stmts
  pub formal_props : List FormalProperty
