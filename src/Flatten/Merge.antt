-- ===== src/Flatten/Merge.antt =====
-- `flatten_ir` of veripy/flatten.py: a module with its instances merged into it. Widths are numbers,
-- so nothing is left of `_resolve_dim`; `none` is the ValueError of an unknown type, or a recursion
-- that has used its fuel up.
pub mod Writes
pub mod Total
mod Tests
use veripy.Base.{
  ℕ, zero, suc, String, Bool, true, false, ◌&&◌, not, List, [], ◌∷◌, ◌++◌, map, Option, some, none,
  ◌>>=◌, if◌then◌else◌, contains, lookup, insert,
}
use veripy.Ir.{
  CombBlock, SeqBlock, ContAssign, Port, WireDecl, RegDecl, ParamValue, number, named, Instance,
  IrModule,
}
use veripy.Flatten.Reads.{stmts_writes}
use veripy.Flatten.Rename.{rename_expr, rename_stmts}
use veripy.Flatten.Inline.{Params, numbers, inline}

abbrev pub Registry : Type 0
Registry = List (String × IrModule)

-- `params.get(v, v) if isinstance(v, str) else v`
abbrev pub param_or : String → Option ParamValue → ParamValue
param_or v none = named v
param_or v (some p) = p

abbrev pub resolve_value : Params → ParamValue → ParamValue
resolve_value params (number z) = number z
resolve_value params (named v) = param_or v (lookup v params)

-- The parameters of the child, overridden by those of the instance.
abbrev pub child_params : Params → Params → Params → Params
child_params params d [] = d
child_params params d ((k, v) ∷ rest) =
    child_params params (insert k (resolve_value params v) d) rest

-- `params or out.params`
abbrev pub params_or : Params → Params → Params
params_or [] d = d
params_or (p ∷ ps) d = p ∷ ps

-- A child is merged itself where it has instances.
abbrev pub merged_child :
    (IrModule → Params → Option IrModule) → Params → IrModule → List Instance → Option IrModule
merged_child flat ps child [] = some child
merged_child flat ps child (i ∷ is) = flat child ps

-- A turn of the loop over the instances, `flat` the recursive call.
abbrev pub add_instance :
    (IrModule → Params → Option IrModule)
    → Registry
    → Params
    → Instance
    → IrModule
    → Option IrModule
add_instance flat registry params inst out = lookup inst.mod_type registry >>= λ child.
    let ps = child_params params child.params inst.params in
    merged_child flat ps child child.instances >>= λ merged. some (inline inst ps merged out)

abbrev pub add_instances :
    (IrModule → Params → Option IrModule)
    → Registry
    → Params
    → List Instance
    → IrModule
    → Option IrModule
add_instances flat registry params [] out = some out
add_instances flat registry params (inst ∷ rest) out =
    add_instance flat registry params inst out >>= λ next.
    add_instances flat registry params rest next

-- The parameters put into the blocks, by the same helpers without a name to change.
abbrev pub resolve_comb : Params → CombBlock → CombBlock
resolve_comb params b = record b { stmts = rename_stmts [] (numbers params) b.stmts }

abbrev pub resolve_seq : Params → SeqBlock → SeqBlock
resolve_seq params b = record b { stmts = rename_stmts [] (numbers params) b.stmts }

-- `Port(p.name, p.direction, …)`
abbrev pub plain_port : Port → Port
plain_port p = record p { is_reg = false }

abbrev pub resolve_assign : Params → ContAssign → ContAssign
resolve_assign params a = record a { value = rename_expr [] (numbers params) a.value }

unfoldable pub resolve : Params → IrModule → IrModule
resolve params out = record out {
  assigns = map (resolve_assign params) out.assigns;
  comb_blocks = map (resolve_comb params) out.comb_blocks;
  seq_blocks = map (resolve_seq params) out.seq_blocks;
  ports = map plain_port out.ports;
}

abbrev pub seq_writes : List SeqBlock → List String
seq_writes [] = []
seq_writes (b ∷ bs) = stmts_writes b.stmts ++ seq_writes bs

-- `_stmt_writes_reads` has no case for a ContAssign, so the assigns add nothing.
abbrev pub comb_writes : List CombBlock → List String
comb_writes [] = []
comb_writes (b ∷ bs) = stmts_writes b.stmts ++ comb_writes bs

-- `comb_only_regs`, of the name of a register.
abbrev pub comb_only : IrModule → String → Bool
comb_only out x =
    contains (comb_writes out.comb_blocks) x && not (contains (seq_writes out.seq_blocks) x)

abbrev pub kept_regs : (String → Bool) → List RegDecl → List RegDecl
kept_regs moved [] = []
kept_regs moved (r ∷ rs) = let rest = kept_regs moved rs in if moved r.name then rest else r ∷ rest

abbrev pub new_wires : (String → Bool) → List RegDecl → List WireDecl
new_wires moved [] = []
new_wires moved (r ∷ rs) =
    let rest = new_wires moved rs in
    if moved r.name then record { name = r.name; width = r.width } ∷ rest else rest

-- Registers that only combinational blocks write become wires.
unfoldable pub reclassify : IrModule → IrModule
reclassify out = record out {
  wires = out.wires ++ new_wires (comb_only out) out.regs;
  regs = kept_regs (comb_only out) out.regs;
}

unfoldable pub flatten_ir : ℕ → Registry → IrModule → Params → Option IrModule
unfolding resolve reclassify
flatten_ir zero registry parent params = none
flatten_ir (suc fuel) registry parent params =
    let ps = params_or params parent.params in
    add_instances (flatten_ir fuel registry) registry ps parent.instances
      (record parent { instances = [] })
    >>= λ out. some (reclassify (resolve ps out))
