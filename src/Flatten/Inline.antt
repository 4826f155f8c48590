-- ===== src/Flatten/Inline.antt =====
-- The parts of `flatten_ir` of veripy/flatten.py that add one instance to its parent: the dictionary
-- of names, and every part of the child under it. Widths and depths are numbers, so nothing is left
-- of `_resolve_dim`.
pub mod Names
mod Tests
use Prim.Native.String.{◌++◌ as concat_str}
use veripy.Base.{
  ℕ, String, List, [], ◌∷◌, ◌++◌, map, Option, some, none, if◌then◌else◌, contains, lookup, insert,
}
use veripy.Base.Int.{ℤ}
use veripy.Ir.{
  CombBlock, SeqBlock, ContAssign, EdgeKind, Port, WireDecl, RegDecl, DualPorts, TrueDualPort,
  MemDecl, mem, dual_port, true_dual_port, ParamValue, number, named, Instance, FormalProperty,
  IrModule,
}
use veripy.Flatten.Rename.{Renaming, rn, rename_expr, rename_stmts}

abbrev pub Params : Type 0
Params = List (String × ParamValue)

-- The parameters that are integers, which `_rename_expr` puts in.
abbrev pub numbers : Params → List (String × ℤ)
numbers [] = []
numbers ((k, number z) ∷ ps) = (k, z) ∷ numbers ps
numbers ((k, named v) ∷ ps) = numbers ps

-- `prefix + x`
unfoldable pub prefixed : String → String → String
prefixed inst_name x = concat_str (concat_str inst_name "_") x

-- `{pname: wname for pname, wname in inst.ports}`
abbrev pub port_map : List (String × String) → Renaming → Renaming
port_map [] d = d
port_map ((p, w) ∷ rest) d = port_map rest (insert p w d)

abbrev pub port_target : String → Option String → String → String
port_target inst_name none p = prefixed inst_name p
port_target inst_name (some w) p = w

abbrev pub rename_ports : String → Renaming → List Port → Renaming → Renaming
rename_ports inst_name wires [] d = d
rename_ports inst_name wires (p ∷ ps) d =
    rename_ports inst_name wires ps
      (insert p.name (port_target inst_name (lookup p.name wires) p.name) d)

-- `rename[x] = prefix + x`
abbrev pub rename_names : String → List String → Renaming → Renaming
rename_names inst_name [] d = d
rename_names inst_name (x ∷ xs) d = rename_names inst_name xs (insert x (prefixed inst_name x) d)

-- The local names of a block, where they are new.
abbrev pub name_local : String → String → Renaming → Option String → Renaming
name_local inst_name x d (some y) = d
name_local inst_name x d none = insert x (prefixed inst_name x) d

abbrev pub rename_locals : String → List (String × ℕ) → Renaming → Renaming
rename_locals inst_name [] d = d
rename_locals inst_name ((x, w) ∷ xs) d =
    rename_locals inst_name xs (name_local inst_name x d (lookup x d))

abbrev pub rename_comb_locals : String → List CombBlock → Renaming → Renaming
rename_comb_locals inst_name [] d = d
rename_comb_locals inst_name (b ∷ bs) d =
    rename_comb_locals inst_name bs (rename_locals inst_name b.locals d)

abbrev pub rename_seq_locals : String → List SeqBlock → Renaming → Renaming
rename_seq_locals inst_name [] d = d
rename_seq_locals inst_name (b ∷ bs) d =
    rename_seq_locals inst_name bs (rename_locals inst_name b.locals d)

abbrev pub mem_name : MemDecl → String
mem_name (mem k d w) = k
mem_name (dual_port k d w p) = k
mem_name (true_dual_port k d w a b) = k

abbrev pub reg_names : List RegDecl → List String
reg_names rs = map (λ r. r.name) rs

abbrev pub wire_names : List WireDecl → List String
wire_names ws = map (λ w. w.name) ws

abbrev pub module_port_names : List Port → List String
module_port_names ps = map (λ p. p.name) ps

-- `rename`: ports first, then registers, wires, memories and the local names.
unfoldable pub rename_map : Instance → IrModule → Renaming
unfolding prefixed
rename_map inst child =
    let name = inst.inst_name in
    let ports = rename_ports name (port_map inst.ports []) child.ports [] in
    let signals =
      rename_names name (wire_names child.wires) (rename_names name (reg_names child.regs) ports) in
    rename_seq_locals name child.seq_blocks (
      rename_comb_locals name child.comb_blocks
        (rename_names name (map mem_name child.mems) signals))

-- The registers and wires of the child that are no ports.
abbrev pub internal_regs : String → List String → List RegDecl → List RegDecl
internal_regs inst_name ports [] = []
internal_regs inst_name ports (r ∷ rs) =
    let rest = internal_regs inst_name ports rs in
    if contains ports r.name then rest else record r { name = prefixed inst_name r.name } ∷ rest

abbrev pub internal_wires : String → List String → List WireDecl → List WireDecl
internal_wires inst_name ports [] = []
internal_wires inst_name ports (w ∷ ws) =
    let rest = internal_wires inst_name ports ws in
    if contains ports w.name then rest else record w { name = prefixed inst_name w.name } ∷ rest

abbrev rename_dual : Renaming → DualPorts → DualPorts
rename_dual rename p = record {
  clock = rn rename p.clock;
  we = rn rename p.we;
  waddr = rn rename p.waddr;
  wdata = rn rename p.wdata;
  raddr = rn rename p.raddr;
  rdata = rn rename p.rdata;
}

abbrev rename_true : Renaming → TrueDualPort → TrueDualPort
rename_true rename p = record {
  clk = rn rename p.clk;
  we = rn rename p.we;
  addr = rn rename p.addr;
  din = rn rename p.din;
  dout = rn rename p.dout;
}

abbrev pub rename_mem : String → Renaming → MemDecl → MemDecl
rename_mem inst_name rename (mem k d w) = mem (prefixed inst_name k) d w
rename_mem inst_name rename (dual_port k d w p) =
    dual_port (prefixed inst_name k) d w (rename_dual rename p)
rename_mem inst_name rename (true_dual_port k d w a b) =
    true_dual_port (prefixed inst_name k) d w (rename_true rename a) (rename_true rename b)

abbrev pub rename_assign : Renaming → List (String × ℤ) → ContAssign → ContAssign
rename_assign rename resolved a = record {
  target = rn rename a.target;
  value = rename_expr rename resolved a.value;
}

-- `{_rn(k, rename): v for k, v in blk.locals.items()}`
abbrev pub rename_keys : Renaming → List (String × ℕ) → List (String × ℕ) → List (String × ℕ)
rename_keys rename [] d = d
rename_keys rename ((k, v) ∷ rest) d = rename_keys rename rest (insert (rn rename k) v d)

abbrev pub rename_comb : Renaming → List (String × ℤ) → CombBlock → CombBlock
rename_comb rename resolved b = record {
  stmts = rename_stmts rename resolved b.stmts;
  locals = rename_keys rename b.locals [];
}

abbrev pub rename_edge : Renaming → EdgeKind × String → EdgeKind × String
rename_edge rename (kind, sig) = (kind, rn rename sig)

abbrev pub rename_seq : Renaming → List (String × ℤ) → SeqBlock → SeqBlock
rename_seq rename resolved b = record {
  edges = map (rename_edge rename) b.edges;
  stmts = rename_stmts rename resolved b.stmts;
  locals = rename_keys rename b.locals [];
}

abbrev pub rename_prop : String → Renaming → List (String × ℤ) → FormalProperty → FormalProperty
rename_prop inst_name rename resolved fp = record fp {
  clock = rn rename fp.clock;
  expr = rename_expr rename resolved fp.expr;
  name = prefixed inst_name fp.name;
}

-- The parts of a child, whose own instances are merged already, added to the parent.
abbrev pub inline : Instance → Params → IrModule → IrModule → IrModule
inline inst ps child out =
    let name = inst.inst_name in
    let rename = rename_map inst child in
    let resolved = numbers ps in
    let ports = module_port_names child.ports in
    record out {
      regs = out.regs ++ internal_regs name ports child.regs;
      wires = out.wires ++ internal_wires name ports child.wires;
      mems = out.mems ++ map (rename_mem name rename) child.mems;
      assigns = out.assigns ++ map (rename_assign rename resolved) child.assigns;
      comb_blocks = out.comb_blocks ++ map (rename_comb rename resolved) child.comb_blocks;
      seq_blocks = out.seq_blocks ++ map (rename_seq rename resolved) child.seq_blocks;
      initial_blocks =
          out.initial_blocks ++ map (rename_stmts rename resolved) child.initial_blocks;
      always_blocks = out.always_blocks ++ map (rename_stmts rename resolved) child.always_blocks;
      formal_props = out.formal_props ++ map (rename_prop name rename resolved) child.formal_props;
    }
