-- ===== src/Fat/Tree/Cd.antt =====
-- `fs_cd` of fs/fat12.c changes the current directory and nothing else.
use pumpkin_os.Prelude.{
  ℕ, zero, suc, ◌≡◌, refl, ap, ◌∙◌, ◌==◌, ◌||◌, ◌&&◌, not, if◌then◌else◌, Bool, true, false,
}
use pumpkin_os.Prelude.{Option, none, some, List, [], length, take, get_or}
use pumpkin_os.Fat.Names.{to_83}
use pumpkin_os.Fat.Cwd.{slash, path_push, path_pop}
use pumpkin_os.Fat.Volume.{Disk, Volume}
use pumpkin_os.Fat.Dir.{Slot, dir_find}
use pumpkin_os.Fat.File.{is_dir}
use pumpkin_os.Fat.Tree.{
  same_name, dot, dotdot, dotdot_83, component, skip_slashes, cd_to, cd_one, cd_loop, at_root,
  fs_cd,
}

-- `v` with the current directory of `w`.
abbrev pub with_cwd : {S : Type 0} → Volume S → Volume S → Volume S
with_cwd v w = record v { cwd_cluster = w.cwd_cluster; cwd_path = w.cwd_path }

-- `w` is `v` but for the current directory.
abbrev pub SameButCwd : {S : Type 0} → Volume S → Volume S → Type 0
SameButCwd v w = w ≡ with_cwd v w

abbrev pub Stays : {S : Type 0} → Volume S → Option (Bool × Volume S) → Type 0
Stays v none = Unit
Stays v (some (ok, w)) = SameButCwd v w

module _ {S : Type 0} where
  SameButCwd-trans : (u v w : Volume S) → SameButCwd u v → SameButCwd v w → SameButCwd u w
  SameButCwd-trans u v w p q = q ∙ ap (λ (x : Volume S). with_cwd x w) p

  Stays-trans :
      (u v : Volume S) (r : Option (Bool × Volume S)) → SameButCwd u v → Stays v r → Stays u r
  Stays-trans u v none p q = tt
  Stays-trans u v (some (ok, w)) p q = SameButCwd-trans u v w p q

  choose :
      (b : Bool) (v : Volume S) (x y : Option (Bool × Volume S))
      → Stays v x
      → Stays v y
      → Stays v (if b then x else y)
  choose true v x y p q = p
  choose false v x y p q = q

module _ {S : Type 0} (dk : Disk S) (fuel : ℕ) where
  Stays-cd_to :
      (up : Bool) (edit : Option (List ℕ)) (v : Volume S) (r : Option (Option Slot))
      → Stays v (cd_to dk fuel up edit v r)
  unfolding cd_to
  Stays-cd_to up edit v none = tt
  Stays-cd_to up edit v (some none) = refl
  Stays-cd_to up none v (some (some e)) = choose (not up && not (is_dir e)) v _ _ refl tt
  Stays-cd_to up (some path) v (some (some e)) = choose (not up && not (is_dir e)) v _ _ refl refl

  Stays-cd_one : (comp : List ℕ) (v : Volume S) → Stays v (cd_one dk fuel comp v)
  unfolding cd_one
  Stays-cd_one comp v =
      let up = same_name comp dotdot in
      choose (same_name comp [] || same_name comp dot) v _ _ refl (
        choose (up && v.cwd_cluster == 0) v _ _ refl (
          Stays-cd_to up (if up then path_pop v.cwd_path else path_push comp v.cwd_path) v
            (dir_find dk fuel v.cwd_cluster (if up then dotdot_83 else to_83 comp) v)))

  then_Stays :
      (v : Volume S) (r : Option (Bool × Volume S)) (k : Volume S → Option (Bool × Volume S))
      → Stays v r
      → ((w : Volume S) → SameButCwd v w → Stays v (k w))
      → Stays v
          (elim r [ none ↦ none | some (false, v') ↦ some (false, v') | some (true, v') ↦ k v' ])
  then_Stays v none k p f = tt
  then_Stays v (some (false, w)) k p f = p
  then_Stays v (some (true, w)) k p f = f w p

  Stays-cd_loop :
      (rounds : ℕ) (path : List ℕ) (v : Volume S) → Stays v (cd_loop dk fuel rounds path v)
  unfolding cd_loop
  Stays-cd_loop zero path v = tt
  Stays-cd_loop (suc rounds) path v =
      let (comp, rest) = component path in
      choose (length path == 0) v _ _ refl (
        choose (length comp == 0) v _ _ (Stays-cd_loop rounds rest v) (
          then_Stays v (cd_one dk fuel (take 12 comp) v) (λ w. cd_loop dk fuel rounds rest w)
            (Stays-cd_one (take 12 comp) v)
            (λ w p. Stays-trans v w _ p (Stays-cd_loop rounds rest w))))

  -- After success only the current directory may differ, after failure nothing.
  abbrev pub Moves : Volume S → Option (Bool × Volume S) → Type 0
  Moves v none = Unit
  Moves v (some (true, w)) = SameButCwd v w
  Moves v (some (false, w)) = w ≡ v

  restored :
      (v start : Volume S) (r : Option (Bool × Volume S))
      → SameButCwd v start
      → Stays start r
      → Moves v (elim r [
        | none ↦ none
        | some (true, v') ↦ some (true, v')
        | some (false, v') ↦ some (false, with_cwd v' v)
      ])
  restored v start none p q = tt
  restored v start (some (true, w)) p q = SameButCwd-trans v start w p q
  restored v start (some (false, w)) p q =
      ap (λ (x : Volume S). with_cwd x v) (SameButCwd-trans v start w p q)

  either-Moves :
      (b : Bool) (v : Volume S) (x y : Option (Bool × Volume S))
      → Moves v x
      → Moves v y
      → Moves v (if b then x else y)
  either-Moves true v x y p q = p
  either-Moves false v x y p q = q

  start_SameButCwd : (b : Bool) (v : Volume S) → SameButCwd v (if b then at_root dk fuel v else v)
  unfolding at_root
  start_SameButCwd true v = refl
  start_SameButCwd false v = refl

  -- Where `fs_cd` has a result, it changes at most the current directory, its cluster and its path,
  -- and on failure not even these.
  pub fs_cd-Moves : (path : List ℕ) (v : Volume S) → Moves v (fs_cd dk fuel path v)
  unfolding fs_cd
  fs_cd-Moves path v =
      let absolute = get_or path 0 0 == slash in
      let start = if absolute then at_root dk fuel v else v in
      let rest = if absolute then skip_slashes path else path in
      either-Moves (not v.mounted) v _ _ refl (
        either-Moves (length path == 0) v _ _ refl (
          restored v start (cd_loop dk fuel (suc (length rest)) rest start)
            (start_SameButCwd absolute v) (Stays-cd_loop (suc (length rest)) rest start)))
