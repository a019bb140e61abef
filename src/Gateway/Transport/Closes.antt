-- ===== src/Gateway/Transport/Closes.antt =====
-- When the socket of the pinned transport is closed, and how much is read from it.
use amazon_echo_home_voice.Prelude.{
  &&-intro, &&-left, &&-right, Bool, Bool-cases, List, String, [], all, arith, false, if◌then◌else◌,
  inl, inr, leb, not, refl, str_eq, subst, suc, sym, true, zero, ℕ, ◌&&◌, ◌+◌, ◌==◌, ◌∙◌, ◌∷◌, ◌≡◌,
}
use amazon_echo_home_voice.Python.{Result, Result-cases, ok, raised}
use amazon_echo_home_voice.Gateway.Transport.{
  Reader, Receive, Socket, change_at, close_reader, close_socket, is_open_at, makefile,
  max_public_wire_bytes, new_socket, readinto, release_reader, count_bytes, read_arrived,
  set_timeout,
}

-- What http.client does with a connected socket, in any order; it makes its reader before it closes the
-- connection.
pub data Step (deadline : ℕ) : Socket → Socket → Type 0 where
  made :
      (mode : String) (s t : Socket)
      → s.closing ≡ false
      → makefile mode s ≡ ok t
      → Step deadline s t
  read :
      (n : ℕ) (receive : Receive) (s : Socket)
      → Step deadline s
          (record s { made = change_at n (λ r. (readinto deadline receive r).1) s.made })
  reader_closed : (n : ℕ) (s : Socket) → Step deadline s (close_reader n s)
  closed : (s : Socket) → Step deadline s (close_socket s)

pub data Reach (deadline : ℕ) : Socket → Type 0 where
  start : Reach deadline new_socket
  next : {s t : Socket} → Reach deadline s → Step deadline s t → Reach deadline t

abbrev pub open_readers : List Reader → ℕ
open_readers [] = 0
open_readers (r ∷ rs) = let n = open_readers rs in if r.closed then n else n + 1

abbrev pub within_limit : Reader → Bool
within_limit r = leb r.received (max_public_wire_bytes + 1)

-- The counter counts the readers that are not closed, the socket is open while there is one or the
-- connection is not closed, and only then; no reader took more than the limit and one byte.
pub record IsCounted (s : Socket) : Type 0 where
  pub counter : s.readers ≡ open_readers s.made
  pub live_while : s.live ≡ not (s.closing && (open_readers s.made == 0))
  pub bounded : all within_limit s.made ≡ true

readinto-closed :
    (deadline : ℕ) (receive : Receive) (r : Reader)
    → (readinto deadline receive r).1.closed ≡ r.closed
unfolding readinto read_arrived count_bytes
readinto-closed deadline receive r = elim (Result-cases (set_timeout deadline receive.now)) [
  | inl (left, e) ↦ rw (e, readinto) (read-closed receive.arrived)
  | inr (x, e) ↦ rw (e, readinto) refl
]
  where
    read-closed : (a : Result ℕ) → (read_arrived receive.capacity a r).1.closed ≡ r.closed
    read-closed (ok n) = unfold read_arrived count_bytes in refl
    read-closed (raised x) = unfold read_arrived in refl

readinto-within :
    (deadline : ℕ) (receive : Receive) (r : Reader)
    → within_limit r ≡ true
    → within_limit (readinto deadline receive r).1 ≡ true
unfolding readinto
readinto-within deadline receive r h = elim (Result-cases (set_timeout deadline receive.now)) [
  | inl (left, e) ↦ rw (e, readinto) (read-within receive.arrived)
  | inr (x, e) ↦ rw (e, readinto) h
]
  where
    read-within : (a : Result ℕ) → within_limit (read_arrived receive.capacity a r).1 ≡ true
    read-within (ok n) = unfold read_arrived count_bytes in ground (arith, h)
    read-within (raised x) = unfold read_arrived in h

open_readers-change :
    (n : ℕ) (f : Reader → Reader) (rs : List Reader)
    → ((r : Reader) → (f r).closed ≡ r.closed)
    → open_readers (change_at n f rs) ≡ open_readers rs
unfolding change_at
open_readers-change n f [] h = refl
open_readers-change zero f (r ∷ rs) h = rw (h r) refl
open_readers-change (suc n) f (r ∷ rs) h = ground (arith, open_readers-change n f rs h)

all-change_at :
    (n : ℕ) (f : Reader → Reader) (rs : List Reader)
    → ((r : Reader) → within_limit r ≡ true → within_limit (f r) ≡ true)
    → all within_limit rs ≡ true
    → all within_limit (change_at n f rs) ≡ true
unfolding change_at
all-change_at n f [] h a = refl
all-change_at zero f (r ∷ rs) h a = &&-intro _ _ (h r (&&-left _ _ a)) (&&-right _ _ a)
all-change_at (suc n) f (r ∷ rs) h a =
    &&-intro _ _ (&&-left _ _ a) (all-change_at n f rs h (&&-right _ _ a))

open_readers-close :
    (n : ℕ) (rs : List Reader)
    → is_open_at n rs ≡ true
    → open_readers (change_at n (λ r. record r { closed = true }) rs) + 1 ≡ open_readers rs
unfolding change_at is_open_at
open_readers-close n [] h = cc
open_readers-close zero (r ∷ rs) h = ground arith
open_readers-close (suc n) (r ∷ rs) h = ground (arith, open_readers-close n rs)

makefile-IsCounted :
    (mode : String) (s t : Socket)
    → s.closing ≡ false
    → makefile mode s ≡ ok t
    → IsCounted s
    → IsCounted t
unfolding makefile
makefile-IsCounted mode s t c h i = elim (Bool-cases (str_eq mode "rb")) [
  | inr e ↦ absurd (ground (arith, e))
  | inl e ↦
      let same : record s {
        readers = s.readers + 1;
        made = record { received = 0; closed = false } ∷ s.made;
      }
          ≡ t =
        ground (arith, e) in
      subst IsCounted same (record {
        counter = omega (arith, i.counter);
        live_while = ground (arith, c, i.live_while);
        bounded = ground (arith, i.bounded);
      })
]

close_reader-IsCounted : (n : ℕ) (s : Socket) → IsCounted s → IsCounted (close_reader n s)
unfolding close_reader release_reader
close_reader-IsCounted n s i = elim (Bool-cases (is_open_at n s.made)) [
  | inr e ↦ rw (e, close_reader) i
  | inl e ↦
      rw (e, close_reader)
        (record {
          counter = omega (arith, i.counter, open_readers-close n s.made e);
          live_while = ground (arith, i.live_while, i.counter, open_readers-close n s.made e);
          bounded = all-change_at n _ s.made (λ r h. h) i.bounded;
        })
]

Step-IsCounted : (deadline : ℕ) {s t : Socket} → Step deadline s t → IsCounted s → IsCounted t
unfolding close_socket
Step-IsCounted deadline (made mode s t c h) i = makefile-IsCounted mode s t c h i
Step-IsCounted deadline (read n receive s) i =
    let same =
      open_readers-change n (λ r. (readinto deadline receive r).1) s.made
        (readinto-closed deadline receive) in
    record {
      counter = i.counter ∙ sym same;
      live_while = rw (same) i.live_while;
      bounded = all-change_at n _ s.made (readinto-within deadline receive) i.bounded;
    }
Step-IsCounted deadline (reader_closed n s) i = close_reader-IsCounted n s i
Step-IsCounted deadline (closed s) i = record {
  counter = i.counter;
  live_while = ground (arith, i.live_while, i.counter);
  bounded = i.bounded;
}

-- However a connection is used, with its readers made before it is closed: its counter is the
-- number of readers that are not closed, its TLS socket is closed exactly when the connection is
-- closed and all readers are, and no reader ever takes more than 49153 bytes from it.
pub Reach-IsCounted : (deadline : ℕ) {s : Socket} → Reach deadline s → IsCounted s
Reach-IsCounted deadline start = record { counter = refl; live_while = refl; bounded = refl }
Reach-IsCounted deadline (next r st) = Step-IsCounted deadline st (Reach-IsCounted deadline r)
