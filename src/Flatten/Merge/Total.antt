-- ===== src/Flatten/Merge/Total.antt =====
-- The recursion of `flatten_ir` over a hierarchy of modules.
use veripy.Base.{
  ℕ, zero, suc, ◌≤◌, ◌<◌, ◌≡◌, refl, String, List, [], ◌∷◌, ◌++◌, Option, some, none, ◌>>=◌, lookup,
  All, arith, Option-cases, inl, inr,
}
use veripy.Ir.{Instance, IrModule}
use veripy.Flatten.Inline.{Params, inline}
use veripy.Flatten.Merge.{
  Registry, child_params, params_or, merged_child, add_instance, add_instances, resolve, reclassify,
  flatten_ir,
}

-- Every instance is of a registered type of a rank below `n`.
abbrev pub IsBelow : Registry → (String → ℕ) → ℕ → List Instance → Type 0
IsBelow registry rank n insts =
    All
      (λ i.
        ((child : IrModule) × (lookup i.mod_type registry ≡ some child)) × (rank i.mod_type < n))
      insts

-- The modules of the registry have ranks, and instances of lower rank only.
abbrev pub IsHierarchy : Registry → (String → ℕ) → Type 0
IsHierarchy registry rank =
    (k : String) (m : IrModule)
    → lookup k registry ≡ some m
    → IsBelow registry rank (rank k) m.instances

abbrev Answers : {A : Type 0} → Option A → Type 0
Answers {A = A} o = (a : A) × (o ≡ some a)

bind-Answers :
    {A B : Type 0} (o : Option A) (f : A → Option B)
    → Answers o
    → ((a : A) → Answers (f a))
    → Answers (o >>= f)
bind-Answers none f (a, h) g = absurd (cc h)
bind-Answers (some b) f h g = g b

IsBelow-le :
    (registry : Registry) (rank : String → ℕ) (insts : List Instance) {m n : ℕ}
    → m ≤ n
    → IsBelow registry rank m insts
    → IsBelow registry rank n insts
IsBelow-le registry rank [] le b = tt
IsBelow-le registry rank (i ∷ is) le b =
    ((b.0.0, omega (arith, b.0.1)), IsBelow-le registry rank is le b.1)

module _ (registry : Registry) (rank : String → ℕ) (h : IsHierarchy registry rank) where
  -- The loop, where the recursive call answers below the fuel.
  module _ (fuel : ℕ)
      (answers : (child : IrModule) (ps : Params) (n : ℕ)
        → n < fuel
        → IsBelow registry rank n child.instances
        → Answers (flatten_ir fuel registry child ps)) where
    merged_child-Answers :
        (ps : Params) (child : IrModule) (insts : List Instance) (n : ℕ)
        → n < fuel
        → IsBelow registry rank n child.instances
        → Answers (merged_child (flatten_ir fuel registry) ps child insts)
    merged_child-Answers ps child [] n lt b = (child, refl)
    merged_child-Answers ps child (i ∷ is) n lt b = answers child ps n lt b

    add_instances-Answers :
        (params : Params) (insts : List Instance) (out : IrModule)
        → IsBelow registry rank fuel insts
        → Answers (add_instances (flatten_ir fuel registry) registry params insts out)
    add_instances-Answers params [] out b = (out, refl)
    add_instances-Answers params (i ∷ is) out (((child, e), lt), rest) =
        let ps = child_params params child.params i.params in
        bind-Answers (add_instance (flatten_ir fuel registry) registry params i out) _
          (rw e (
            bind-Answers (merged_child (flatten_ir fuel registry) ps child child.instances) _
              (merged_child-Answers ps child child.instances (rank i.mod_type) lt
                (h i.mod_type child e))
              (λ merged. (inline i ps merged out, refl))))
          (λ next. add_instances-Answers params is next rest)

  -- Where every instance is of a registered type and the types have ranks that go down from a
  -- module to its instances, flatten_ir gives a module with a fuel above the ranks.
  pub flatten_ir_total :
      (fuel : ℕ) (parent : IrModule) (params : Params) (n : ℕ)
      → n < fuel
      → IsBelow registry rank n parent.instances
      → (out : IrModule) × (flatten_ir fuel registry parent params ≡ some out)
  unfolding flatten_ir
  flatten_ir_total zero parent params n lt b = absurd (omega arith)
  flatten_ir_total (suc fuel) parent params n lt b =
      let ps = params_or params parent.params in
      bind-Answers
        (add_instances (flatten_ir fuel registry) registry ps parent.instances
          (record parent { instances = [] }))
        _
        (add_instances-Answers fuel (flatten_ir_total fuel) ps parent.instances _
          (IsBelow-le registry rank parent.instances (omega arith) b))
        (λ out. (reclassify (resolve ps out), refl))

module _ (registry : Registry) (flat : IrModule → Params → Option IrModule) (params : Params)
    (inst : Instance) (after : List Instance) (unknown : lookup inst.mod_type registry ≡ none) where
  add_instances-unknown :
      (before : List Instance) (out : IrModule)
      → add_instances flat registry params (before ++ (inst ∷ after)) out ≡ none
  add_instances-unknown [] out = rw unknown refl
  add_instances-unknown (i ∷ before) out =
      elim (Option-cases (add_instance flat registry params i out)) [
        | inl fails ↦ rw fails refl
        | inr (next, found) ↦ rw found (add_instances-unknown before next)
      ]

-- Where the instances of a module include one whose type is not registered, flatten_ir gives no
-- module, with any fuel and whatever stands before it.
pub flatten_ir-unknown :
    (fuel : ℕ) (registry : Registry) (parent : IrModule) (params : Params) (before : List Instance)
    (inst : Instance) (after : List Instance)
    → parent.instances ≡ before ++ (inst ∷ after)
    → lookup inst.mod_type registry ≡ none
    → flatten_ir fuel registry parent params ≡ none
unfolding flatten_ir
flatten_ir-unknown zero registry parent params before inst after at unknown = refl
flatten_ir-unknown (suc fuel) registry parent params before inst after at unknown = rw at (
    rw
      (add_instances-unknown registry (flatten_ir fuel registry) (params_or params parent.params)
        inst after unknown before (record parent { instances = [] }))
      refl)
