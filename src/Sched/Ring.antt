-- ===== src/Sched/Ring.antt =====
-- The run queue of sched/sched.c as a list: the tasks behind `current`, in the order of `next`.
use pumpkin_os.Prelude.{
  ℕ, update, suc, ◌<◌, ◌^◌, ◌≡◌, ◌≢◌, refl, ap, ◌∙◌, arith, Bool, true, false, ◌==◌, if◌then◌else◌,
  List, [], ◌∷◌, ◌++◌, length,
}
use pumpkin_os.Prelude.{Bool-cases, inl, inr, ==→≡, ==_refl}
use pumpkin_os.Sched.{Task, Sched, Alloc, next_of, stack_size, new_task, sched_init, task_spawn}

-- `next` leads from `a` through the list to `b`.
abbrev pub Links : (ℕ → Task) → ℕ → List ℕ → ℕ → Type 0
Links f a [] b = next_of f a ≡ b
Links f a (x ∷ l) b = (next_of f a ≡ x) × Links f x l b

abbrev pub has : ℕ → List ℕ → Bool
has p [] = false
has p (x ∷ l) = if x == p then true else has p l

abbrev pub distinct : List ℕ → Bool
distinct [] = true
distinct (x ∷ l) = if has x l then false else distinct l

abbrev pub all_alive : (ℕ → Task) → List ℕ → Bool
all_alive f [] = true
all_alive f (x ∷ l) = if (f x).state == 0 then all_alive f l else false

pub record IsRing {H : Type 0} (s : Sched H) (others : List ℕ) : Type 0 where
  pub links : Links s.tasks s.current others s.current
  pub apart : distinct (s.current ∷ others) ≡ true
  pub alive : all_alive s.tasks (s.current ∷ others) ≡ true
  pub not_null : has 0 (s.current ∷ others) ≡ false
  pub counted : s.ntasks ≡ suc (length others)
  pub bounded : length others < 2 ^ 31

pub has-head : (x : ℕ) (l : List ℕ) → has x (x ∷ l) ≡ true
has-head x l = rw (==_refl x) refl

pub has-tail : (p x : ℕ) (l : List ℕ) → has p l ≡ true → has p (x ∷ l) ≡ true
has-tail p x l h = ground (arith, h)

-- A list is read off another store, from another task, that agrees with the first.
pub Links-agree :
    (f g : ℕ → Task) (a t : ℕ) (l : List ℕ) (b : ℕ)
    → Links f a l b
    → next_of g t ≡ next_of f a
    → ((p : ℕ) → has p l ≡ true → next_of g p ≡ next_of f p)
    → Links g t l b
Links-agree f g a t [] b k e h = e ∙ k
Links-agree f g a t (x ∷ l) b k e h =
    (e ∙ k.0, Links-agree f g x x l b k.1 (h x (has-head x l)) (λ p m. h p (has-tail p x l m)))

pub Links-snoc :
    (f : ℕ → Task) (a : ℕ) (l : List ℕ) (c b : ℕ)
    → Links f a l c
    → next_of f c ≡ b
    → Links f a (l ++ c ∷ []) b
Links-snoc f a [] c b k e = (k, e)
Links-snoc f a (x ∷ l) c b k e = (k.0, Links-snoc f x l c b k.1 e)

pub all_alive-agree :
    (f g : ℕ → Task) (l : List ℕ)
    → all_alive f l ≡ true
    → ((p : ℕ) → has p l ≡ true → (g p).state ≡ (f p).state)
    → all_alive g l ≡ true
all_alive-agree f g [] k h = refl
all_alive-agree f g (x ∷ l) k h =
    let here : (g x).state ≡ (f x).state = h x (has-head x l) in
    let rest = all_alive-agree f g l (ground (arith, k)) (λ p m. h p (has-tail p x l m)) in
    ground (arith, here, k, rest)

pub has-apart : (p q : ℕ) (l : List ℕ) → has q l ≡ true → has p l ≡ false → (p == q) ≡ false
has-apart p q l m h = elim (Bool-cases (p == q)) [
  | inl e ↦
      let same : has p l ≡ has q l = ap (λ (x : ℕ). has x l) (==→≡ p q e) in
      ground (arith, same, m, h)
  | inr e ↦ e
]

pub update-elsewhere :
    (p q : ℕ) (t : Task) (f : ℕ → Task) (l : List ℕ)
    → has q l ≡ true
    → has p l ≡ false
    → update p t f q ≡ f q
update-elsewhere p q t f l m h =
    let miss : (q == p) ≡ false = ground (arith, has-apart p q l m h) in rw miss refl

pub update-here : (p : ℕ) (t : Task) (f : ℕ → Task) → update p t f p ≡ t
update-here p t f = rw (==_refl p) refl

-- The store of `task_spawn`.
abbrev pub spliced : ℕ → ℕ → Task → (ℕ → Task) → ℕ → Task
spliced c t new f = let g = update t new f in update c (record (g c) { next = t }) g

module _ (c t : ℕ) (new : Task) (f : ℕ → Task) (others : List ℕ)
    (fresh : has t (c ∷ others) ≡ false) (apart : distinct (c ∷ others) ≡ true) where
  other : (t == c) ≡ false
  other = ground (arith, fresh)

  spliced-rest : (p : ℕ) → has p others ≡ true → spliced c t new f p ≡ f p
  spliced-rest p m =
      let not_c : has c others ≡ false = ground (arith, apart) in
      let not_t : has t others ≡ false = ground (arith, fresh) in
      update-elsewhere c p (record (update t new f c) { next = t }) (update t new f) others m not_c
      ∙ update-elsewhere t p new f others m not_t

  spliced-new : spliced c t new f t ≡ new
  spliced-new = rw (other, ==_refl t) refl

  spliced-current : spliced c t new f c ≡ record (f c) { next = t }
  spliced-current = ground arith

  pub Links-spliced :
      new.next ≡ next_of f c → Links f c others c → Links (spliced c t new f) c (t ∷ others) c
  Links-spliced e k = (
    ap (λ (x : Task). x.next) spliced-current,
    Links-agree f (spliced c t new f) c t others c k (ap (λ (x : Task). x.next) spliced-new ∙ e)
        (λ p m. ap (λ (x : Task). x.next) (spliced-rest p m)),
  )

  pub all_alive-spliced :
      new.state ≡ 0
      → all_alive f (c ∷ others) ≡ true
      → all_alive (spliced c t new f) (c ∷ t ∷ others) ≡ true
  all_alive-spliced e k =
      let rest =
        all_alive-agree f (spliced c t new f) others (ground (arith, k))
          (λ p m. ap (λ (x : Task). x.state) (spliced-rest p m)) in
      let here : (spliced c t new f c).state ≡ (f c).state =
        ap (λ (x : Task). x.state) spliced-current in
      let there : (spliced c t new f t).state ≡ 0 = ap (λ (x : Task). x.state) spliced-new ∙ e in
      ground (arith, rest, here, there, k)

-- Where the queue holds `current` and `others`, and the pointer that `kmalloc` returns first is not
-- null and none of them, `task_spawn` puts that task right behind `current`; nothing else in the
-- order changes.
pub task_spawn-IsRing :
    {H : Type 0} (al : Alloc H) (bootstrap entry arg name : ℕ) (s : Sched H) (others : List ℕ)
    → IsRing s others
    → has (al.kmalloc 40 s.heap).0 (0 ∷ s.current ∷ others) ≡ false
    → suc (length others) < 2 ^ 31
    → IsRing (task_spawn al bootstrap entry arg name s).1 ((al.kmalloc 40 s.heap).0 ∷ others)
unfolding task_spawn
task_spawn-IsRing al bootstrap entry arg name s others v fresh small =
    let t = (al.kmalloc 40 s.heap).0 in
    let stack = (al.kmalloc stack_size (al.kmalloc 40 s.heap).1).0 in
    let new = new_task al stack entry arg name s in
    let unlike : has t (s.current ∷ others) ≡ false = ground (arith, fresh) in
    record {
      links = Links-spliced s.current t new s.tasks others unlike v.apart refl v.links;
      apart = ground (arith, fresh, v.apart);
      alive = all_alive-spliced s.current t new s.tasks others unlike v.apart refl v.alive;
      not_null = ground (arith, fresh, v.not_null);
      counted = omega (arith, v.counted);
      bounded = small;
    }

-- What `kmalloc` returns to `sched_init` is a queue of its own, unless it is null.
pub sched_init-IsRing :
    {H : Type 0} (al : Alloc H) (kmain : ℕ) (s : Sched H)
    → (al.kmalloc 40 s.heap).0 ≢ 0
    → IsRing (sched_init al kmain s) []
unfolding sched_init
sched_init-IsRing al kmain s h =
    let t = (al.kmalloc 40 s.heap).0 in
    record {
      links = ground arith;
      apart = refl;
      alive = ground arith;
      not_null = ground (arith, h);
      counted = refl;
      bounded = omega arith;
    }
