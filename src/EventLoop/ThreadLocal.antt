-- ===== src/EventLoop/ThreadLocal.antt =====
-- src/nev/event_loop.cc: the thread-local pointer to the loop of a thread, which the constructor sets, the
-- destructor resets and `EventLoop::Current` reads.
mod Tests
use nev.Base.{
  ℕ, ◌≡◌, refl, sym, ap, ◌∙◌, ◌≤◌, ◌<◌, ◌↔◌, length, Bool, true, false, not, ◌&&◌, if◌then◌else◌,
  ◌==◌, ==_iff, List, [], ◌∷◌, Option, none, some, Option-cases, Bool-cases, inl, inr, arith,
}

-- A loop that lives, and the thread that made it.
pub record Living : Type 0 where
  pub loop : ℕ
  pub thread_id : ℕ

pub record Process : Type 0 where
  pub tls_ptr : ℕ → Option ℕ
  pub living : List Living

abbrev pub new_process : Process
new_process = record { tls_ptr = λ _. none; living = [] }

-- `lazy_tls_ptr.Pointer()->Set(ptr)` in a thread.
unfoldable pub set_pointer : (ℕ → Option ℕ) → ℕ → Option ℕ → ℕ → Option ℕ
set_pointer tls thread ptr t = if t == thread then ptr else tls t

-- The constructor, in a thread; `none` is `LOG(FATAL)`.
unfoldable pub construct_at : Option ℕ → ℕ → ℕ → Process → Option Process
unfolding set_pointer
construct_at (some other) thread loop s = none
construct_at none thread loop s = some (record {
  tls_ptr = set_pointer s.tls_ptr thread (some loop);
  living = record { loop = loop; thread_id = thread } ∷ s.living;
})

unfoldable pub construct : ℕ → ℕ → Process → Option Process
unfolding construct_at
construct thread loop s = construct_at (s.tls_ptr thread) thread loop s

unfoldable pub erase_living : Living → List Living → List Living
erase_living x [] = []
erase_living x (y ∷ ys) =
    let rest = erase_living x ys in
    if (y.loop == x.loop) && (y.thread_id == x.thread_id) then rest else y ∷ rest

-- The destructor, in the thread `thread`.
unfoldable pub destruct : ℕ → Living → Process → Process
unfolding set_pointer erase_living
destruct thread x s = record {
  tls_ptr = set_pointer s.tls_ptr thread none;
  living = erase_living x s.living;
}

-- `EventLoop::Current()`.
unfoldable pub current : ℕ → Process → Option ℕ
current thread s = s.tls_ptr thread

-- The loops that a thread has made and that live.
abbrev pub loops_of : ℕ → List Living → List ℕ
loops_of t [] = []
loops_of t (y ∷ ys) = if y.thread_id == t then y.loop ∷ loops_of t ys else loops_of t ys

abbrev pub to_list : Option ℕ → List ℕ
to_list none = []
to_list (some l) = l ∷ []

-- Threads make loops, and each destroys its own.
pub data Step : Process → Process → Type 0 where
  constructs :
      {t : Process} (s : Process) (thread loop : ℕ) → construct thread loop s ≡ some t → Step s t
  destructs :
      (s : Process) (x : Living)
      → loops_of x.thread_id s.living ≡ x.loop ∷ []
      → Step s (destruct x.thread_id x s)

pub data Reach (s : Process) : Process → Type 0 where
  here : Reach s s
  next : {t u : Process} → Reach s t → Step t u → Reach s u

abbrev Follows : Process → Type 0
Follows s = (t : ℕ) → loops_of t s.living ≡ to_list (current t s)

constructed_none :
    (ptr : Option ℕ) (thread loop : ℕ) (s t : Process)
    → construct_at ptr thread loop s ≡ some t
    → ptr ≡ none
unfolding construct_at
constructed_none none thread loop s t e = refl
constructed_none (some l) thread loop s t e = ground arith

constructed-Follows :
    (thread loop : ℕ) (s t : Process)
    → s.tls_ptr thread ≡ none
    → construct_at none thread loop s ≡ some t
    → Follows s
    → Follows t
unfolding construct_at set_pointer current
constructed-Follows thread loop s t n e v u = ground (arith, v u)

erase-other :
    (x : Living) (t : ℕ) (ys : List Living)
    → (x.thread_id == t) ≡ false
    → loops_of t (erase_living x ys) ≡ loops_of t ys
unfolding erase_living
erase-other x t [] h = refl
erase-other x t (y ∷ ys) h = ground (arith, erase-other x t ys h)

erase-none :
    (x : Living) (t : ℕ) (ys : List Living)
    → loops_of t ys ≡ []
    → loops_of t (erase_living x ys) ≡ []
unfolding erase_living
erase-none x t [] h = refl
erase-none x t (y ∷ ys) h = ground (arith, erase-none x t ys)

erase-own :
    (x : Living) (ys : List Living)
    → loops_of x.thread_id ys ≡ x.loop ∷ []
    → loops_of x.thread_id (erase_living x ys) ≡ []
unfolding erase_living
erase-own x [] h = refl
erase-own x (y ∷ ys) h = ground (arith, erase-none x x.thread_id ys, erase-own x ys)

destructed-Follows :
    (s : Process) (x : Living)
    → loops_of x.thread_id s.living ≡ x.loop ∷ []
    → Follows s
    → Follows (destruct x.thread_id x s)
unfolding destruct set_pointer current
destructed-Follows s x h v u = elim (Bool-cases (u == x.thread_id)) [
  | inl t ↦ let e = (==_iff u x.thread_id).0 t in rw (t, e) (erase-own x s.living h)
  | inr t ↦ rw t (erase-other x u s.living (ground arith) ∙ v u)
]

Step-Follows : {s t : Process} → Step s t → Follows s → Follows t
Step-Follows (constructs {t} s thread loop e) v =
    unfold construct in
    let n = constructed_none (s.tls_ptr thread) thread loop s t e in
    constructed-Follows thread loop s t n (sym (ap (λ p. construct_at p thread loop s) n) ∙ e) v
Step-Follows (destructs s x h) v = destructed-Follows s x h v

Reach-Follows : {s : Process} → Reach new_process s → Follows s
Reach-Follows here t = unfold current in refl
Reach-Follows (next r st) t = Step-Follows st (Reach-Follows r) t

only_one :
    (ptr : Option ℕ) (ls : List ℕ) (t l : ℕ) (s : Process)
    → ls ≡ to_list ptr
    → (length ls ≤ 1) × ((construct_at ptr t l s ≡ none) ↔ (0 < length ls))
unfolding construct_at
only_one none ls t l s e = ground arith
only_one (some m) ls t l s e = ground arith

-- Over any run in which each thread destroys its own loops, the pointer of a thread is the loop
-- that it made and that lives, there is at most one, and a constructor dies exactly if there is
-- one.
pub Reach-one_loop :
    {s : Process}
    → Reach new_process s
    → (t l : ℕ)
    → (loops_of t s.living ≡ to_list (current t s))
      × (length (loops_of t s.living) ≤ 1)
      × ((construct t l s ≡ none) ↔ (0 < length (loops_of t s.living)))
unfolding construct current
Reach-one_loop {s} r t l =
    let v = Reach-Follows r t in
    let (few, dies) = only_one (s.tls_ptr t) (loops_of t s.living) t l s v in (v, few, dies)
