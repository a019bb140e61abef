-- ===== src/Gateway/Transport.antt =====
-- The pinned transport of gateway.py: `_DeadlineReader`, `_DeadlineSocket` and
-- `_PinnedHTTPSConnection.connect`. What the operating system's socket answers is an argument.
pub mod Closes
use amazon_echo_home_voice.Prelude.{
  Bool, List, String, [], false, if◌then◌else◌, leb, ltb, min, not, str_eq, suc, true, zero, ℕ,
  ◌&&◌, ◌+◌, ◌-◌, ◌==◌, ◌∷◌,
}
use amazon_echo_home_voice.Python.{Result, gateway, ok, raised, ◌>>=◌, ◌>>◌}
use amazon_echo_home_voice.Gateway.Response.{max_response_bytes}

-- HTTP headers and chunk framing count, in addition to the limit on the body.
abbrev pub max_public_wire_bytes : ℕ
max_public_wire_bytes = max_response_bytes + 16384

-- A `_DeadlineReader`.
pub record Reader : Type 0 where
  pub received : ℕ
  pub closed : Bool

-- A `_DeadlineSocket`: whether its socket is open, its counter, and every reader that it made.
pub record Socket : Type 0 where
  pub live : Bool
  pub readers : ℕ
  pub closing : Bool
  pub made : List Reader

-- _DeadlineSocket.__init__
abbrev pub new_socket : Socket
new_socket = record { live = true; readers = 0; closing = false; made = [] }

-- One read: the clock, the size of the buffer, and what the socket has for it or how it fails.
pub record Receive : Type 0 where
  pub now : ℕ
  pub capacity : ℕ
  pub arrived : Result ℕ

-- _remaining at a reading of the clock, for a socket's timeout
abbrev pub set_timeout : (deadline now : ℕ) → Result ℕ
set_timeout deadline now =
    if leb deadline now then raised (gateway "Gateway request timed out") else ok (deadline - now)

-- self.received += amount
unfoldable pub count_bytes : ℕ → Reader → Result ℕ × Reader
count_bytes amount reader =
    let received = reader.received + amount in
    (
      if ltb max_public_wire_bytes received
          then raised (gateway "Gateway response is too large")
          else ok amount,
      record reader { received = received },
    )

unfoldable pub read_arrived : (capacity : ℕ) → Result ℕ → Reader → Result ℕ × Reader
read_arrived capacity (raised e) reader = (raised e, reader)
read_arrived capacity (ok arrived) reader =
    let remaining = max_public_wire_bytes + 1 - reader.received in
    count_bytes (min arrived (min capacity remaining)) reader

-- _DeadlineReader.readinto
unfoldable pub readinto : (deadline : ℕ) → Receive → Reader → Result ℕ × Reader
readinto deadline receive reader = elim (set_timeout deadline receive.now) [
  | raised e ↦ (raised e, reader)
  | ok left ↦ read_arrived receive.capacity receive.arrived reader
]

-- _DeadlineSocket.makefile
unfoldable pub makefile : (mode : String) → Socket → Result Socket
makefile mode socket =
    if str_eq mode "rb"
    then ok (record socket {
      readers = socket.readers + 1;
      made = record { received = 0; closed = false } ∷ socket.made;
    })
    else raised (gateway "Invalid gateway transport")

-- _DeadlineSocket.sendall, for what the socket does with the bytes
unfoldable pub sendall : (deadline now : ℕ) → Result (Unit {0}) → Result (Unit {0})
sendall deadline now sent = set_timeout deadline now >>= λ left. sent

-- _DeadlineSocket.close
unfoldable pub close_socket : Socket → Socket
close_socket socket = record socket {
  closing = true;
  live = if socket.readers == 0 then false else socket.live;
}

-- _DeadlineSocket.release_reader, which a reader calls once: the counter is not 0
unfoldable pub release_reader : Socket → Socket
release_reader socket =
    let readers = socket.readers - 1 in
    record socket {
      readers = readers;
      live = if socket.closing && (readers == 0) then false else socket.live;
    }

-- Whether the reader at a place is there and not closed.
unfoldable pub is_open_at : ℕ → List Reader → Bool
is_open_at n [] = false
is_open_at zero (r ∷ rs) = not r.closed
is_open_at (suc n) (r ∷ rs) = is_open_at n rs

-- A change of the reader at a place.
unfoldable pub change_at : ℕ → (Reader → Reader) → List Reader → List Reader
change_at n f [] = []
change_at zero f (r ∷ rs) = f r ∷ rs
change_at (suc n) f (r ∷ rs) = r ∷ change_at n f rs

-- _DeadlineReader.close
unfoldable pub close_reader : ℕ → Socket → Socket
close_reader n socket =
    if is_open_at n socket.made
    then release_reader
        (record socket { made = change_at n (λ r. record r { closed = true }) socket.made })
    else socket

-- How the steps of a connection go: socket.socket, connect and wrap_socket, with the clock at each.
pub record Dial : Type 0 where
  pub created : Result (Unit {0})
  pub start : ℕ
  pub connected : Result (Unit {0})
  pub later : ℕ
  pub secured : Result (Unit {0})

-- The `try` block of `_PinnedHTTPSConnection.connect`.
unfoldable pub dial : (deadline : ℕ) → Dial → Result Socket
dial deadline d = do
  left ← set_timeout deadline d.start
  d.connected
  rest ← set_timeout deadline d.later
  d.secured
  ok new_socket

-- _PinnedHTTPSConnection.connect, and whether it leaves an open socket of the operating system
unfoldable pub connect : (deadline : ℕ) → Dial → Result Socket × Bool
connect deadline d = elim d.created [
  | raised e ↦ (raised e, false)
  | ok u ↦ elim (dial deadline d) [ raised e ↦ (raised e, false) | ok socket ↦ (ok socket, true) ]
]
