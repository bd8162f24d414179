-- ===== src/Base/Run.antt =====
-- Runs of code over a state S: a result with the new state, a fault (an access through NULL or to
-- memory that no object covers), or a hang (`while(1)`, or a lock that is never released).

pub data Run (S A : Type 0) : Type 0 where
  ok : A → S → Run S A
  fault : Run S A
  hang : Run S A

abbrev pub Cmd : Type 0 → Type 0 → Type 0
Cmd S A = S → Run S A

abbrev pub pure : {S A : Type 0} → A → Cmd S A
pure a s = ok a s

abbrev pub and_then : {S A B : Type 0} → Run S A → (A → Cmd S B) → Run S B
and_then (ok a s) k = k a s
and_then fault k = fault
and_then hang k = hang

infixl 5 ◌>>=◌ ◌>>◌
abbrev pub ◌>>=◌ : {S A B : Type 0} → Cmd S A → (A → Cmd S B) → Cmd S B
m >>= k = λ s. and_then (m s) k

abbrev pub ◌>>◌ : {S A B : Type 0} → Cmd S A → Cmd S B → Cmd S B
m >> k = m >>= λ _. k

abbrev pub get_state : {S : Type 0} → Cmd S S
get_state s = ok s s

abbrev pub put_state : {S : Type 0} → S → Cmd S (Unit {0})
put_state s' s = ok tt s'

abbrev pub hang_cmd : {S A : Type 0} → Cmd S A
hang_cmd s = hang

abbrev pub fault_cmd : {S A : Type 0} → Cmd S A
fault_cmd s = fault

-- Total correctness of a run: it returns, and the postcondition holds.
abbrev pub Returns : {S A : Type 0} → Run S A → (A → S → Type 0) → Type 0
Returns (ok a s) P = P a s
Returns fault P = ⊥
Returns hang P = ⊥

pub Returns-and_then :
    {S A B : Type 0} (m : Run S A) (k : A → Cmd S B) (P : A → S → Type 0) (Q : B → S → Type 0)
    → Returns m P
    → ((a : A) (s : S) → P a s → Returns (k a s) Q)
    → Returns (and_then m k) Q
Returns-and_then (ok a s) k P Q h next = next a s h
Returns-and_then fault k P Q h next = h
Returns-and_then hang k P Q h next = h

pub Returns-mono :
    {S A : Type 0} (m : Run S A) (P Q : A → S → Type 0)
    → Returns m P
    → ((a : A) (s : S) → P a s → Q a s)
    → Returns m Q
Returns-mono (ok a s) P Q h next = next a s h
Returns-mono fault P Q h next = h
Returns-mono hang P Q h next = h
