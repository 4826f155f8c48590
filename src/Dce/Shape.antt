-- ===== src/Dce/Shape.antt =====
-- Statements whose lists hold no list in place of a statement, and what `_flatten_stmts` leaves.
use veripy.Base.{
  ◌≡◌, refl, ap₂, String, List, contains, contains-append_left, contains-append_right, true, ◌++◌,
  none, lookup,
}
use veripy.Ir.{
  Stmt, Stmts, Cases, assign, slice_assign, if_else, case, mem_write, group, snil, scons, cnil,
  ccons, extend,
}
use veripy.Dce.Subst.{ConstMap, flatten_stmt, flatten_stmts}
use veripy.Dce.Stable.{Stable}

abbrev mutual
  pub NoGroup : Stmt → Type 0
  NoGroup (group ss) = ⊥
  NoGroup (if_else c yes_body no_body) = NoGroups yes_body × NoGroups no_body
  NoGroup (case s cs default) = NoGroupCases cs × NoGroups default
  NoGroup _ = Unit

  pub NoGroups : Stmts → Type 0
  NoGroups snil = Unit
  NoGroups (scons s ss) = NoGroup s × NoGroups ss

  pub NoGroupCases : Cases → Type 0
  NoGroupCases cnil = Unit
  NoGroupCases (ccons e body cs) = NoGroups body × NoGroupCases cs

-- The passes keep every concatenation of the statement, which holds no list where a statement is
-- expected.
abbrev mutual
  pub StableStmt : ConstMap → Stmt → Type 0
  StableStmt cm (assign k e b) = Stable cm e
  StableStmt cm (slice_assign k hi lo e b) = Stable cm hi × Stable cm lo × Stable cm e
  StableStmt cm (mem_write k addr e b) = Stable cm addr × Stable cm e
  StableStmt cm (if_else c yes_body no_body) =
      Stable cm c × StableStmts cm yes_body × StableStmts cm no_body
  StableStmt cm (case s cs default) = Stable cm s × StableCases cm cs × StableStmts cm default
  StableStmt cm (group ss) = ⊥
  StableStmt cm _ = Unit

  pub StableStmts : ConstMap → Stmts → Type 0
  StableStmts cm snil = Unit
  StableStmts cm (scons s ss) = StableStmt cm s × StableStmts cm ss

  pub StableCases : ConstMap → Cases → Type 0
  StableCases cm cnil = Unit
  StableCases cm (ccons e body cs) = Stable cm e × StableStmts cm body × StableCases cm cs

-- None of the names is a key of the dictionary.
abbrev pub Untouched : ConstMap → List String → Type 0
Untouched cm ws = (k : String) → contains ws k ≡ true → lookup k cm ≡ none

pub Untouched-left :
    (cm : ConstMap) (xs ys : List String) → Untouched cm (xs ++ ys) → Untouched cm xs
Untouched-left cm xs ys h k c = h k (contains-append_left xs ys k c)

pub Untouched-right :
    (cm : ConstMap) (xs ys : List String) → Untouched cm (xs ++ ys) → Untouched cm ys
Untouched-right cm xs ys h k c = h k (contains-append_right xs ys k c)

NoGroup-flatten : (s : Stmt) → NoGroup s → flatten_stmt s ≡ scons s snil
unfolding flatten_stmt
NoGroup-flatten (group ss) h = absurd h
NoGroup-flatten _ h = refl

pub NoGroups-flatten : (ss : Stmts) → NoGroups ss → flatten_stmts ss ≡ ss
unfolding flatten_stmt
NoGroups-flatten snil h = refl
NoGroups-flatten (scons s ss) h = ap₂ extend (NoGroup-flatten s h.0) (NoGroups-flatten ss h.1)

pub NoGroups-extend_split : (xs ys : Stmts) → NoGroups (extend xs ys) → NoGroups xs × NoGroups ys
NoGroups-extend_split snil ys h = (tt, h)
NoGroups-extend_split (scons x xs) ys h =
    let r = NoGroups-extend_split xs ys h.1 in ((h.0, r.0), r.1)
