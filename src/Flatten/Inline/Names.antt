-- ===== src/Flatten/Inline/Names.antt =====
-- What the dictionary of names of an instance holds.
use veripy.Base.{
  ℕ, ◌≡◌, refl, ap, sym, ◌∙◌, String, Bool, true, false, ◌||◌, List, [], ◌∷◌, ◌++◌, map, Option,
  some, none, if◌then◌else◌, contains, lookup, insert, lookup-insert, same, subst, same→eq,
  Bool-cases, inl, inr, arith, contains-append,
}
use veripy.Ir.{CombBlock, SeqBlock, Port, Instance, IrModule}
use veripy.Flatten.Rename.{Renaming}
use veripy.Flatten.Inline.{
  prefixed, port_map, port_target, rename_ports, rename_names, name_local, rename_locals,
  rename_comb_locals, rename_seq_locals, mem_name, reg_names, wire_names, module_port_names,
  rename_map,
}

abbrev pub block_locals : List (String × ℕ) → List String
block_locals [] = []
block_locals ((x, w) ∷ xs) = x ∷ block_locals xs

-- The local names of all blocks.
abbrev pub comb_locals : List CombBlock → List String
comb_locals [] = []
comb_locals (b ∷ bs) = block_locals b.locals ++ comb_locals bs

abbrev pub seq_locals : List SeqBlock → List String
seq_locals [] = []
seq_locals (b ∷ bs) = block_locals b.locals ++ seq_locals bs

-- An old entry, or the new one.
abbrev pub first_of {ℓ} : {A : Type ℓ} → Option A → Option A → Option A
first_of none b = b
first_of (some a) b = some a

abbrev pub given : String → String → Bool → Option String
given n x b = if b then some (prefixed n x) else none

first_of-none : (o : Option String) → first_of o none ≡ o
first_of-none none = refl
first_of-none (some a) = refl

module _ (n x : String) where
  lookup-rename_names :
      (xs : List String) (d : Renaming)
      → lookup x (rename_names n xs d) ≡ first_of (given n x (contains xs x)) (lookup x d)
  lookup-rename_names [] d = refl
  lookup-rename_names (y ∷ xs) d =
      let ih = lookup-rename_names xs (insert y (prefixed n y) d) in
      let at = lookup-insert y x (prefixed n y) d in
      elim (Bool-cases (same y x)) [
        | inl e ↦ let same_name = ap (prefixed n) (same→eq y x e) in ground arith
        | inr e ↦ ground arith
      ]

  lookup-rename_ports :
      (wires : Renaming) (ps : List Port) (d : Renaming)
      → lookup x (rename_ports n wires ps d) ≡ (
          if contains (module_port_names ps) x
          then some (port_target n (lookup x wires) x)
          else lookup x d)
  lookup-rename_ports wires [] d = refl
  lookup-rename_ports wires (p ∷ ps) d =
      let v = port_target n (lookup p.name wires) p.name in
      let ih = lookup-rename_ports wires ps (insert p.name v d) in
      let at = lookup-insert p.name x v d in
      elim (Bool-cases (same p.name x)) [
        | inl e ↦
            let same_name = ap (λ y. port_target n (lookup y wires) y) (same→eq p.name x e) in
            ground arith
        | inr e ↦ ground arith
      ]

  lookup-name_local :
      (y : String) (d : Renaming) (o : Option String)
      → lookup y d ≡ o
      → lookup x (name_local n y d o) ≡ first_of (lookup x d) (given n x (same y x))
  lookup-name_local y d none h =
      let at = lookup-insert y x (prefixed n y) d in
      elim (Bool-cases (same y x)) [
        | inl e ↦
            let same_name = ap (prefixed n) (same→eq y x e) in
            let absent : lookup x d ≡ none = subst (λ z. lookup z d ≡ none) (same→eq y x e) h in
            ground arith
        | inr e ↦ (ground (arith, first_of-none (lookup x d)))
      ]
  lookup-name_local y d (some z) h = elim (Bool-cases (same y x)) [
    | inl e ↦
        let there : lookup x d ≡ some z = subst (λ k. lookup k d ≡ some z) (same→eq y x e) h in
        ground arith
    | inr e ↦ (ground (arith, first_of-none (lookup x d)))
  ]

  -- Two sets of names after what is there.
  given-or :
      (o : Option String) (a b : Bool)
      → first_of (first_of o (given n x a)) (given n x b) ≡ first_of o (given n x (a || b))
  given-or none true b = refl
  given-or none false b = refl
  given-or (some y) a b = refl

  lookup-rename_locals :
      (xs : List (String × ℕ)) (d : Renaming)
      → lookup x (rename_locals n xs d)
        ≡ first_of (lookup x d) (given n x (contains (block_locals xs) x))
  lookup-rename_locals [] d = sym (first_of-none (lookup x d))
  lookup-rename_locals ((y, w) ∷ xs) d =
      lookup-rename_locals xs (name_local n y d (lookup y d))
      ∙ (ap (λ o. first_of o (given n x (contains (block_locals xs) x)))
            (lookup-name_local y d (lookup y d) refl)
          ∙ given-or (lookup x d) (same y x) (contains (block_locals xs) x))

  lookup-rename_comb_locals :
      (bs : List CombBlock) (d : Renaming)
      → lookup x (rename_comb_locals n bs d)
        ≡ first_of (lookup x d) (given n x (contains (comb_locals bs) x))
  lookup-rename_comb_locals [] d = sym (first_of-none (lookup x d))
  lookup-rename_comb_locals (b ∷ bs) d =
      lookup-rename_comb_locals bs (rename_locals n b.locals d)
      ∙ (ap (λ o. first_of o (given n x (contains (comb_locals bs) x)))
            (lookup-rename_locals b.locals d)
          ∙ (given-or (lookup x d) (contains (block_locals b.locals) x)
                (contains (comb_locals bs) x)
              ∙ ap (λ z. first_of (lookup x d) (given n x z))
                  (sym (contains-append (block_locals b.locals) (comb_locals bs) x))))

  lookup-rename_seq_locals :
      (bs : List SeqBlock) (d : Renaming)
      → lookup x (rename_seq_locals n bs d)
        ≡ first_of (lookup x d) (given n x (contains (seq_locals bs) x))
  lookup-rename_seq_locals [] d = sym (first_of-none (lookup x d))
  lookup-rename_seq_locals (b ∷ bs) d =
      lookup-rename_seq_locals bs (rename_locals n b.locals d)
      ∙ (ap (λ o. first_of o (given n x (contains (seq_locals bs) x)))
            (lookup-rename_locals b.locals d)
          ∙ (given-or (lookup x d) (contains (block_locals b.locals) x) (contains (seq_locals bs) x)
              ∙ ap (λ z. first_of (lookup x d) (given n x z))
                  (sym (contains-append (block_locals b.locals) (seq_locals bs) x))))

-- The names that are declared in the child, other than its ports and local names.
abbrev pub signal_names : IrModule → List String
signal_names child = reg_names child.regs ++ (wire_names child.wires ++ map mem_name child.mems)

abbrev pub local_names_of : IrModule → List String
local_names_of child = comb_locals child.comb_blocks ++ seq_locals child.seq_blocks

-- The wire that a port is joined to, or its own name with the prefix.
abbrev pub port_wire : Instance → String → String
port_wire inst x = port_target inst.inst_name (lookup x (port_map inst.ports [])) x

-- The name that a name of the child has in its parent: a register, wire or memory has its own name
-- with the prefix of the instance, also where a port has the same name; any other port has the wire
-- it is joined to, or its name with the prefix; a local name has its name with the prefix; no other
-- name is changed.
pub rename_map-lookup :
    (inst : Instance) (child : IrModule) (x : String)
    → lookup x (rename_map inst child) ≡ (
        if contains (signal_names child) x
        then some (prefixed inst.inst_name x)
        else (if contains (module_port_names child.ports) x
            then some (port_wire inst x)
            else given inst.inst_name x (contains (local_names_of child) x)))
unfolding rename_map
rename_map-lookup inst child x =
    let n = inst.inst_name in
    let wires = port_map inst.ports [] in
    let d0 = rename_ports n wires child.ports [] in
    let d1 = rename_names n (reg_names child.regs) d0 in
    let d2 = rename_names n (wire_names child.wires) d1 in
    let d3 = rename_names n (map mem_name child.mems) d2 in
    let d4 = rename_comb_locals n child.comb_blocks d3 in
    let e0 = lookup-rename_ports n x wires child.ports [] in
    let e1 = lookup-rename_names n x (reg_names child.regs) d0 in
    let e2 = lookup-rename_names n x (wire_names child.wires) d1 in
    let e3 = lookup-rename_names n x (map mem_name child.mems) d2 in
    let e4 = lookup-rename_comb_locals n x child.comb_blocks d3 in
    let e5 = lookup-rename_seq_locals n x child.seq_blocks d4 in
    let c1 =
      contains-append (reg_names child.regs) (wire_names child.wires ++ map mem_name child.mems)
        x in
    let c2 = contains-append (wire_names child.wires) (map mem_name child.mems) x in
    let c3 = contains-append (comb_locals child.comb_blocks) (seq_locals child.seq_blocks) x in
    ground arith
