-- ===== src/Tests/System.antt =====
-- A concrete system: the handles of its UDP sockets and those of a transport engine's connections,
-- the signals still to come, what arrived and what was sent.
use discovery.Base.{
  ℕ, zero, suc, ◌+◌, ◌≤◌, ◌≡◌, refl, ap, List, [], ◌∷◌, Option, none, some, Bool, true, false,
  length, take, arith, if◌then◌else◌,
}
use discovery.Base.Int.{ℤ, pos, negsuc, same_ℤ}
use discovery.Base.Text.{Bytes}
use discovery.External.System.{
  SockAddr, Outcome, done, interrupted, failed, Inet, Posix, PosixLaws, Winsock, WinsockLaws,
}

pub record System : Type 0 where
  pub table : ℤ → Bool
  pub streams : List ℤ
  pub next : ℕ
  pub signals : ℕ
  pub inbox : Option (Bytes × SockAddr Bytes)
  pub sent : List (Bytes × SockAddr Bytes)

abbrev pub is_open : ℤ → System → Bool
is_open j w = w.table j

-- An address is its own text.
abbrev pub inet : Inet Bytes
inet = record {
  inet_pton = λ host. some host;
  inet_ntop = λ a. some a;
  htons = λ port. port;
  ntohs = λ port. port;
}

-- The next handle, if it is free.
abbrev socket : System → ℤ × System
socket w = if w.table (pos w.next) then (negsuc 0, w) else (
  pos w.next,
  record w { table = λ j. if same_ℤ (pos w.next) j then true else w.table j; next = w.next + 1 },
)

abbrev close : ℤ → System → System
close fd w = record w { table = λ j. if same_ℤ fd j then false else w.table j }

abbrev deliver : ℕ → Option (Bytes × SockAddr Bytes) → Option (Bytes × SockAddr Bytes)
deliver size none = none
deliver size (some r) = some (take size r.0, r.1)

abbrev received : Option (Bytes × SockAddr Bytes) → Outcome (Bytes × SockAddr Bytes)
received none = failed
received (some r) = done r

-- Each signal interrupts one call.
abbrev signalled : {R : Type 0} → ℕ → Outcome R → System → System → Outcome R × System
signalled zero o w' w = (o, w')
signalled (suc n) o w' w = (interrupted, record w { signals = n })

abbrev pub posix : Posix Bytes System
posix = record {
  socket = socket;
  bind = λ fd a w. (true, w);
  sendto =
      λ fd d to w. signalled w.signals (done (length d)) (record w { sent = (d, to) ∷ w.sent }) w;
  recvfrom = λ fd size w.
      signalled w.signals (received (deliver size w.inbox)) (record w { inbox = none }) w;
  close = close;
  setsockopt = λ fd o w. (true, w);
  signals = λ w. w.signals;
}

signalled_table :
    {R : Type 0} (n : ℕ) (o : Outcome R) (w' w : System) (j : ℤ)
    → is_open j w' ≡ is_open j w
    → is_open j (signalled n o w' w).1 ≡ is_open j w
signalled_table zero o w' w j h = h
signalled_table (suc n) o w' w j h = refl

signalled_done :
    {R : Type 0} (n : ℕ) (o : Outcome R) (w' w : System) (r : R)
    → (signalled n o w' w).0 ≡ done r
    → o ≡ done r
signalled_done zero o w' w r h = h
signalled_done (suc n) o w' w r h = cc h

length-take_count : (n : ℕ) (xs : Bytes) → length (take n xs) ≤ n
length-take_count zero xs = omega arith
length-take_count (suc n) [] = omega arith
length-take_count (suc n) (x ∷ xs) = omega (arith, length-take_count n xs)

received_size :
    (size : ℕ) (inbox : Option (Bytes × SockAddr Bytes)) (r : Bytes × SockAddr Bytes)
    → received (deliver size inbox) ≡ done r
    → length r.0 ≤ size
received_size size none r h = cc h
received_size size (some q) r h =
    let e : (take size q.0, q.1) ≡ r = cc h in
    omega (arith, length-take_count size q.0, ap (λ (x : Bytes × SockAddr Bytes). length x.0) e)

pub posix-laws : PosixLaws posix is_open
posix-laws = record {
  sendto_size = λ fd d to w n h.
      let e : length d ≡ n = cc (signalled_done w.signals (done (length d)) _ w n h) in
      omega (arith, e);
  recvfrom_size =
      λ fd size w r h. received_size size w.inbox r (signalled_done w.signals _ _ w r h);
  socket_open = λ j w. ground arith;
  socket_fresh = λ w h. ground arith;
  close_open = λ j fd w. refl;
  bind_open = λ j fd a w. refl;
  sendto_open = λ j fd d to w. signalled_table w.signals _ _ w j refl;
  recvfrom_open = λ j fd size w. signalled_table w.signals _ _ w j refl;
  setsockopt_open = λ j fd o w. refl;
}

-- The same system under Winsock, whose calls no signal interrupts.
abbrev pub winsock : Winsock Bytes System
winsock = record {
  invalid_socket = negsuc 0;
  socket = socket;
  bind = λ s a w. (true, w);
  sendto = λ s d to w. (some (length d), record w { sent = (d, to) ∷ w.sent });
  recvfrom = λ s size w. (deliver size w.inbox, record w { inbox = none });
  closesocket = close;
  setsockopt = λ s o w. (true, w);
}

deliver_size :
    (size : ℕ) (inbox : Option (Bytes × SockAddr Bytes)) (r : Bytes × SockAddr Bytes)
    → deliver size inbox ≡ some r
    → length r.0 ≤ size
deliver_size size inbox r h = received_size size inbox r (ap received h)

pub winsock-laws : WinsockLaws winsock is_open
winsock-laws = record {
  sendto_size = λ s d to w n h. (let e : length d ≡ n = cc h in omega (arith, e));
  recvfrom_size = λ s size w r h. deliver_size size w.inbox r h;
  socket_open = λ j w. ground arith;
  socket_fresh = λ w h. ground arith;
  closesocket_open = λ j s w. refl;
  bind_open = λ j s a w. refl;
  sendto_open = λ j s d to w. refl;
  recvfrom_open = λ j s size w. refl;
  setsockopt_open = λ j s o w. refl;
}

-- A connection of a transport engine takes the next handle.
abbrev pub connect : System → System
connect w = record w { streams = pos w.next ∷ w.streams; next = w.next + 1 }

-- Another UDP socket is open, and two signals are on their way.
abbrev pub two_signals : System
two_signals = record {
  table = λ j. same_ℤ (pos 9) j;
  streams = [];
  next = 3;
  signals = 2;
  inbox = none;
  sent = [];
}

-- The time is always one second after the epoch and a millisecond.
abbrev pub fixed_clock : System → ℤ × System
fixed_clock w = (pos 1001, w)
