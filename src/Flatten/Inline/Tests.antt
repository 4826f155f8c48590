-- ===== src/Flatten/Inline/Tests.antt =====
-- An instance `u` of a module with the port `a`, joined to `w`, and the register `r`.
use veripy.Base.{◌≡◌, false, [], ◌∷◌, some, lookup, same}
use veripy.Ir.{sig, assign, scons, snil, input, output, posedge, Instance, IrModule}
use veripy.Flatten.Inline.{prefixed, rename_map}
use veripy.Flatten.Inline.Names.{rename_map-lookup}

abbrev child : IrModule
child = record {
  name = "delay_line";
  params = [];
  ports =
      record { name = "a"; direction = input; width = 8; is_reg = false }
      ∷ record { name = "y"; direction = output; width = 8; is_reg = false }
      ∷ [];
  wires = [];
  regs = record { name = "r"; width = 8 } ∷ [];
  mems = [];
  instances = [];
  assigns = record { target = "y"; value = sig "r" } ∷ [];
  comb_blocks = [];
  seq_blocks =
      record {
        edges = (posedge, "clk") ∷ [];
        stmts = scons (assign "r" (sig "a") false) snil;
        locals = [];
      }
      ∷ [];
  initial_blocks = [];
  always_blocks = [];
  formal_props = [];
}

abbrev inst : Instance
inst = record { mod_type = "delay_line"; inst_name = "u"; params = []; ports = ("a", "w") ∷ [] }

rename_map-lookup_example : lookup "a" (rename_map inst child) ≡ some "w"
unfolding same
rename_map-lookup_example = rename_map-lookup inst child "a"

register_name : lookup "r" (rename_map inst child) ≡ some "u_r"
unfolding same prefixed
register_name = rename_map-lookup inst child "r"
