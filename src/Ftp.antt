-- ===== src/Ftp.antt =====
-- FTP/client.cpp and FTP/server.cpp: two programs that send messages to one another.
-- A program is what it sends and how it goes on with what it receives. A message is what one call of
-- `send` or `sendfile` gives to the connection; it is received whole, by one call of `recv`. An `int`
-- is the number that its bits stand for, and files are shorter than 2 ^ 31 bytes.
pub mod Client
pub mod Server
pub mod Talk
pub mod Command
pub mod Put
pub mod Fetch
pub mod Get
pub mod Copied
pub mod Mput
pub mod Mget
pub mod Session
use network_os_simulation.Shared.{
  ℕ, zero, suc, List, [], ◌∷◌, Option, none, some, Bool, ltb, ◌==◌, if◌then◌else◌, length,
}
use network_os_simulation.Shared.Text.{Text}

pub data Message : Type 0 where
  line : Text → Message
  int : ℕ → Message
  block : List ℕ → Message

-- `fault`: behaviour that is undefined or depends on the system, an exception that nobody catches, or a message of another kind than
-- the one that is waited for.
pub data Program (A : Type 0) : Type 0 where
  done : A → Program A
  fault : Program A
  send : Message → Program A → Program A
  receive : (Message → Program A) → Program A

infixl 5 ◌and_then◌
abbrev pub ◌and_then◌ : {A B : Type 0} → Program A → (A → Program B) → Program B
done a and_then f = f a
fault and_then f = fault
send m p and_then f = send m (p and_then f)
receive k and_then f = receive (λ m. k m and_then f)

-- Both sides run: a message that one sends is received by the other. The server, when it is done,
-- starts its next `round` for the next message.
abbrev pub talk : {A S : Type 0} → (S → Program S) → Program A → Program S → Option (A × S)
talk round (done a) (done s) = some (a, s)
talk round (done a) _ = none
talk round fault q = none
talk round (send m p) (receive k) = talk round p (k m)
talk round (send m p) (done s) = elim (round s) [ receive k ↦ talk round p (k m) | _ ↦ none ]
talk round (send m p) _ = none
talk round (receive k) (send m q) = talk round (k m) q
talk round (receive k) _ = none

-- A text in a buffer of a size, with the NUL behind it. Of the bytes behind the NUL, which `send`
-- reads past the end of the string, nothing is said: the other side does not look at them.
abbrev pub send_text : {A : Type 0} → ℕ → Text → Program A → Program A
send_text size t p = if ltb (length t) size then send (line t) p else fault

abbrev pub receive_int : {A : Type 0} → (ℕ → Program A) → Program A
receive_int k = receive (λ m. elim m [ int n ↦ k n | _ ↦ fault ])

abbrev pub receive_text : {A : Type 0} → (Text → Program A) → Program A
receive_text k = receive (λ m. elim m [ line t ↦ k t | _ ↦ fault ])

-- No byte is sent for a file without bytes.
abbrev pub send_block : {A : Type 0} → List ℕ → Program A → Program A
send_block [] p = p
send_block (b ∷ bs) p = send (block (b ∷ bs)) p

-- To receive no byte waits for more data or not: it depends on the system.
abbrev pub receive_block : {A : Type 0} → ℕ → (List ℕ → Program A) → Program A
receive_block zero k = fault
receive_block (suc n) k =
    receive (λ m. elim m [ block bs ↦ if length bs == suc n then k bs else fault | _ ↦ fault ])
