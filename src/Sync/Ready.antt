-- ===== src/Sync/Ready.antt =====
-- What sync.c asks of the scheduler: `thread_ready` on one thread, or on each of a drained list.
use libut.Common.{
  ℕ, suc, ◌≡◌, refl, sym, ap, ◌∙◌, List, [], ◌∷◌, ◌++◌, append-nil, append_assoc, length,
}

-- a `thread_t *`
abbrev pub Thread : Type 0
Thread = ℕ

-- the threads made ready so far, in order
abbrev pub Ready : Type 0
Ready = List Thread

abbrev pub thread_ready : Ready → Thread → Ready
thread_ready log th = log ++ th ∷ []

-- `while (true) { th = list_pop(&tmp, thread_t, link); if (!th) break; thread_ready(th); }`
unfoldable pub ready_all : Ready → List Thread → Ready
ready_all log [] = log
ready_all log (th ∷ tmp) = ready_all (thread_ready log th) tmp

-- The loop makes the threads of the list ready, oldest first.
pub ready_all-append : (log : Ready) (tmp : List Thread) → ready_all log tmp ≡ log ++ tmp
unfolding ready_all
ready_all-append log [] = sym (append-nil log)
ready_all-append log (th ∷ tmp) =
    ready_all-append (log ++ th ∷ []) tmp ∙ append_assoc log (th ∷ []) tmp

-- `xs` without one occurrence of `t`
pub data Without {ℓ} {A : Type ℓ} (t : A) : List A → List A → Type ℓ where
  here : (xs : List A) → Without t (t ∷ xs) xs
  later : (x : A) {xs ys : List A} → Without t xs ys → Without t (x ∷ xs) (x ∷ ys)

pub length-Without {ℓ} :
    {A : Type ℓ} {t : A} {xs ys : List A} → Without t xs ys → length xs ≡ suc (length ys)
length-Without (here xs) = refl
length-Without (later x w) = ap suc (length-Without w)
