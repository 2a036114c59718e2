-- ===== src/Handling/ReadSet.antt =====
-- The set of handles that is handed to select, and the bound on them.
use bigblackhardware.Base.{
  ℕ, ◌+◌, ◌<◌, ◌≤◌, ◌≡◌, ◌∙◌, sym, ◌⊎◌, ◌↔◌, refl, ap, inl, inr, ◌==◌, ==_iff, ltb, true, Option,
  none, some, List, [], ◌∷◌, arith, Bool-cases,
}
use bigblackhardware.Handling.{Connections, check_connection, add_fd, read_fd_loop, get_read_fd}
use bigblackhardware.Handling.Serve.{fd_isset}

fd_isset-tail : (h fd : ℕ) (fds : List ℕ) → fd_isset h fds ≡ true → fd_isset h (fd ∷ fds) ≡ true
fd_isset-tail h fd fds set = ground arith

fd_isset-head : (h fd : ℕ) (fds : List ℕ) → fd ≡ h → fd_isset h (fd ∷ fds) ≡ true
fd_isset-head h fd fds same = ground arith

some-injective : (a b : ℕ) → some a ≡ some b → a ≡ b
some-injective a b e = cc

module _ {Q : Type 0} (conns : Connections Q) where
  -- An entry is a connection that is open with the handle.
  abbrev pub Active : List (Option ℕ) → ℕ → Type 0
  Active [] h = ⊥
  Active (info ∷ infos) h = (check_connection conns info ≡ some h) ⊎ Active infos h

  -- What the loop makes of the set and the bound that it starts from.
  record Extends (infos : List (Option ℕ)) (start result : ℕ × List ℕ) : Type 0 where
    sound : (h : ℕ) → fd_isset h result.1 ≡ true → (fd_isset h start.1 ≡ true) ⊎ Active infos h
    keeps : (h : ℕ) → fd_isset h start.1 ≡ true → fd_isset h result.1 ≡ true
    adds : (h : ℕ) → Active infos h → fd_isset h result.1 ≡ true
    grows : start.0 ≤ result.0
    bounds : (h : ℕ) → Active infos h → h ≤ result.0
    attained : (result.0 ≡ start.0) ⊎ Active infos result.0

  add_fd-Extends :
      (info : Option ℕ) (infos : List (Option ℕ)) (start r : ℕ × List ℕ) (c : Option ℕ)
      → check_connection conns info ≡ c
      → Extends infos (add_fd c start) r
      → Extends (info ∷ infos) start r
  add_fd-Extends info infos start r none shut v = record {
    sound = λ h e. elim (v.sound h e) [ inl before ↦ inl before | inr a ↦ inr (inr a) ];
    keeps = v.keeps;
    adds = λ h a. elim a [ inl now ↦ absurd cc | inr later ↦ v.adds h later ];
    grows = v.grows;
    bounds = λ h a. elim a [ inl now ↦ absurd cc | inr later ↦ v.bounds h later ];
    attained = elim v.attained [ inl before ↦ inl before | inr a ↦ inr (inr a) ];
  }
  add_fd-Extends info infos start r (some fd) live v = record {
    sound = λ h e. elim (v.sound h e) [
      | inl set ↦ elim (Bool-cases (fd == h)) [
        | inl same ↦ inr (inl (live ∙ ap some ((==_iff fd h).0 same)))
        | inr other ↦ inl (rw other at set)
      ]
      | inr a ↦ inr (inr a)
    ];
    keeps = λ h set. v.keeps h (fd_isset-tail h fd start.1 set);
    adds = λ h a. elim a [
      | inl now ↦ v.keeps h (fd_isset-head h fd start.1 (some-injective fd h (sym live ∙ now)))
      | inr later ↦ v.adds h later
    ];
    grows = let w = v.grows in ground arith;
    bounds = λ h a. elim a [
      | inl now ↦ let w = v.grows in let same = some-injective fd h (sym live ∙ now) in ground arith
      | inr later ↦ v.bounds h later
    ];
    attained = elim v.attained [
      | inl before ↦ elim (Bool-cases (ltb start.0 fd)) [
        | inl larger ↦ inr (inl (live ∙ ap some (sym (rw larger at before))))
        | inr smaller ↦ inl (rw smaller at before)
      ]
      | inr a ↦ inr (inr a)
    ];
  }

  read_fd_loop-Extends :
      (infos : List (Option ℕ)) (start : ℕ × List ℕ)
      → Extends infos start (read_fd_loop conns infos start)
  read_fd_loop-Extends [] start = record {
    sound = λ h e. inl e;
    keeps = λ h e. e;
    adds = λ h a. absurd a;
    grows = omega arith;
    bounds = λ h a. absurd a;
    attained = inl refl;
  }
  read_fd_loop-Extends (info ∷ infos) start =
      add_fd-Extends info infos start _ (check_connection conns info) refl
        (read_fd_loop-Extends infos (add_fd (check_connection conns info) start))

  -- Exactly the handles of open connections are set, each of them is less than the argument that
  -- select gets, and that argument is one more than the largest of them, or 1 where there is none.
  pub get_read_fd-Active :
      (infos : List (Option ℕ))
      → let r = get_read_fd conns infos in
        ((h : ℕ) → (fd_isset h r.1 ≡ true) ↔ Active infos h)
        × ((h : ℕ) → Active infos h → h < r.0 + 1)
        × ((r.0 ≡ 0) ⊎ Active infos r.0)
  unfolding get_read_fd
  get_read_fd-Active infos =
      let v = read_fd_loop-Extends infos (0, []) in
      (
        (λ h. (λ e. elim (v.sound h e) [ inl none_set ↦ absurd cc | inr a ↦ a ], v.adds h)),
        (λ h a. omega (arith, v.bounds h a)),
        v.attained,
      )
