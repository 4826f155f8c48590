-- ===== src/Flatten/Merge/Tests.antt =====
-- A module with one instance of a delay line, and a register that only a combinational block writes.
use veripy.Base.{
  ℕ, ◌≡◌, refl, sym, subst, of_some, Bool-cases, inl, inr, String, true, false, [], ◌∷◌, map,
  Option, some, none, same, contains, arith, if◌then◌else◌,
}
use veripy.Ir.{sig, assign, scons, snil, input, output, posedge, Instance, IrModule}
use veripy.Flatten.Reads.{stmts_writes}
use veripy.Flatten.Rename.{rn, rename_stmts}
use veripy.Flatten.Inline.{prefixed, rename_map, reg_names}
use veripy.Flatten.Merge.{Registry, plain_port, comb_only, flatten_ir}
use veripy.Flatten.Merge.Writes.{flatten_ir-parts}
use veripy.Flatten.Merge.Total.{IsBelow, IsHierarchy, flatten_ir_total}

abbrev delay_line : IrModule
delay_line = record {
  name = "delay_line";
  params = [];
  ports =
      record { name = "a"; direction = input; width = 8; is_reg = false }
      ∷ record { name = "y"; direction = output; width = 8; is_reg = false }
      ∷ [];
  wires = [];
  regs = record { name = "r"; width = 8 } ∷ [];
  mems = [];
  instances = [];
  assigns = record { target = "y"; value = sig "r" } ∷ [];
  comb_blocks = [];
  seq_blocks =
      record {
        edges = (posedge, "clk") ∷ [];
        stmts = scons (assign "r" (sig "a") false) snil;
        locals = [];
      }
      ∷ [];
  initial_blocks = [];
  always_blocks = [];
  formal_props = [];
}

abbrev unit : Instance
unit = record { mod_type = "delay_line"; inst_name = "u"; params = []; ports = ("a", "w") ∷ [] }

abbrev top : IrModule
top = record {
  name = "top";
  params = [];
  ports = record { name = "x"; direction = input; width = 8; is_reg = false } ∷ [];
  wires = [];
  regs = record { name = "w"; width = 8 } ∷ [];
  mems = [];
  instances = unit ∷ [];
  assigns = [];
  comb_blocks = record { stmts = scons (assign "w" (sig "x") true) snil; locals = [] } ∷ [];
  seq_blocks = [];
  initial_blocks = [];
  always_blocks = [];
  formal_props = [];
}

abbrev registry : Registry
registry = ("delay_line", delay_line) ∷ []

abbrev or_top : Option IrModule → IrModule
or_top none = top
or_top (some m) = m

abbrev rank : String → ℕ
rank x = if same x "delay_line" then 0 else 1

registry-IsHierarchy : IsHierarchy registry rank
registry-IsHierarchy k m h = elim (Bool-cases (same "delay_line" k)) [
  | inl e ↦
      let found : some delay_line ≡ some m = rw e at h in
      subst (λ c. IsBelow registry rank (rank k) c.instances) (sym (of_some found)) tt
  | inr e ↦ absurd (cc (rw e at h))
]

top-IsBelow : IsBelow registry rank 1 top.instances
unfolding same
top-IsBelow = (((delay_line, refl), omega arith), tt)

flatten_ir_total_example : (out : IrModule) × (flatten_ir 2 registry top [] ≡ some out)
flatten_ir_total_example =
    flatten_ir_total registry rank registry-IsHierarchy 2 top [] 1 (omega arith) top-IsBelow

unfoldable merged : IrModule
merged = or_top (flatten_ir 2 registry top [])

merged_equation : flatten_ir 2 registry top [] ≡ some merged
unfolding merged flatten_ir same
merged_equation = refl

-- `w` has become a wire, and the register of the instance has its prefix.
merged_regs : reg_names merged.regs ≡ "u_r" ∷ []
unfolding merged flatten_ir same rn rename_map prefixed stmts_writes rename_stmts
merged_regs = refl

flatten_ir-parts_example :
    (merged.instances ≡ [])
    × (merged.ports ≡ map plain_port top.ports)
    × ((x : String) → contains (reg_names merged.regs) x ≡ true → comb_only merged x ≡ false)
flatten_ir-parts_example = flatten_ir-parts 2 registry top [] merged merged_equation
