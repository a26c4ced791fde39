-- ===== src/Ftp/Talk.antt =====
-- Lemmas on programs that run one after the other.
use network_os_simulation.Shared.{
  ◌≡◌, refl, fun_ext, ap, none, some, ℕ, List, ◌∷◌, length, if◌then◌else◌,
}
use network_os_simulation.Shared.Tests.{equals_itself}
use network_os_simulation.Ftp.{
  send_block, receive_block, Message, Program, done, fault, send, receive, ◌and_then◌, talk,
}

-- The server that starts no other round.
abbrev pub alone : {S : Type 0} → S → Program S
alone s = done s

-- Two sides that end together go on together.
pub talk-and_then :
    {A B S : Type 0} (round : S → Program S) (f : A → Program B) (g : S → Program S) (p : Program A)
    (q : Program S) (a : A) (s : S)
    → talk alone p q ≡ some (a, s)
    → talk round (p and_then f) (q and_then g) ≡ talk round (f a) (g s)
talk-and_then round f g (done b) (done t) a s e = cc
talk-and_then round f g (done b) fault a s e = cc
talk-and_then round f g (done b) (send m q) a s e = cc
talk-and_then round f g (done b) (receive k) a s e = cc
talk-and_then round f g fault q a s e = cc
talk-and_then round f g (send m p) (receive k) a s e = talk-and_then round f g p (k m) a s e
talk-and_then round f g (send m p) (done t) a s e = cc
talk-and_then round f g (send m p) (send n q) a s e = cc
talk-and_then round f g (send m p) fault a s e = cc
talk-and_then round f g (receive k) (send m q) a s e = talk-and_then round f g (k m) q a s e
talk-and_then round f g (receive k) (done t) a s e = cc
talk-and_then round f g (receive k) (receive l) a s e = cc
talk-and_then round f g (receive k) fault a s e = cc

next_round :
    {A B S : Type 0} (round : S → Program S) (f : A → Program B) (m : Message) (p : Program A)
    (a : A) (s : S)
    → ((q : Program S)
        → talk round p q ≡ some (a, s)
        → talk round (p and_then f) q ≡ talk round (f a) (done s))
    → (r : Program S) → elim r [ receive k ↦ talk round p (k m) | _ ↦ none ] ≡ some (a, s)
    → elim r [ receive k ↦ talk round (p and_then f) (k m) | _ ↦ none ] ≡ talk round (f a) (done s)
next_round round f m p a s go (done b) e = cc
next_round round f m p a s go fault e = cc
next_round round f m p a s go (send n q) e = cc
next_round round f m p a s go (receive k) e = go (k m) e

-- A program goes on where it has ended.
pub talk-and_then_done :
    {A B S : Type 0} (round : S → Program S) (f : A → Program B) (p : Program A) (q : Program S)
    (a : A) (s : S)
    → talk round p q ≡ some (a, s)
    → talk round (p and_then f) q ≡ talk round (f a) (done s)
talk-and_then_done round f (done b) (done t) a s e = cc
talk-and_then_done round f (done b) fault a s e = cc
talk-and_then_done round f (done b) (send m q) a s e = cc
talk-and_then_done round f (done b) (receive k) a s e = cc
talk-and_then_done round f fault q a s e = cc
talk-and_then_done round f (send m p) (receive k) a s e = talk-and_then_done round f p (k m) a s e
talk-and_then_done round f (send m p) (done t) a s e =
    next_round round f m p a s (λ q h. talk-and_then_done round f p q a s h) (round t) e
talk-and_then_done round f (send m p) (send n q) a s e = cc
talk-and_then_done round f (send m p) fault a s e = cc
talk-and_then_done round f (receive k) (send m q) a s e = talk-and_then_done round f (k m) q a s e
talk-and_then_done round f (receive k) (done t) a s e = cc
talk-and_then_done round f (receive k) (receive l) a s e = cc
talk-and_then_done round f (receive k) fault a s e = cc

-- To go on with nothing is to stop.
pub and_then-done : {A : Type 0} (p : Program A) → (p and_then (λ a. done a)) ≡ p
and_then-done (done a) = refl
and_then-done fault = refl
and_then-done (send m p) = ap (send m) (and_then-done p)
and_then-done (receive k) = ap receive (fun_ext (λ m. and_then-done (k m)))

-- The bytes of a file that is not empty go over whole, to the server and to the client.
pub talk-send_block :
    {A S : Type 0} (round : S → Program S) (b : ℕ) (bs : List ℕ) (p : Program A)
    (k : List ℕ → Program S)
    → talk round (send_block (b ∷ bs) p) (receive_block (length (b ∷ bs)) k)
      ≡ talk round p (k (b ∷ bs))
talk-send_block round b bs p k =
    ap (λ t. talk round p (if t then k (b ∷ bs) else fault)) (equals_itself (length (b ∷ bs)))

pub talk-receive_block :
    {A S : Type 0} (round : S → Program S) (b : ℕ) (bs : List ℕ) (k : List ℕ → Program A)
    (q : Program S)
    → talk round (receive_block (length (b ∷ bs)) k) (send_block (b ∷ bs) q)
      ≡ talk round (k (b ∷ bs)) q
talk-receive_block round b bs k q =
    ap (λ t. talk round (if t then k (b ∷ bs) else fault) q) (equals_itself (length (b ∷ bs)))
