-- ===== src/Mqttpb/Conn/Laws.antt =====
-- Messages that a connection hands over, and those that bring the program down.
use go_reverse_rpc.Base.{
  ℕ, zero, suc, ◌≤◌, ◌<◌, ◌≡◌, refl, ap, true, false, none, some, List, [], ◌∷◌, ◌++◌, Bytes, take,
  drop, length, All, arith,
}
use go_reverse_rpc.Mqttpb.Conn.{
  bytes_read, blocked, Conn, new_conn, receive, read, meet, close, read_all,
}

pub take-drop : (n : ℕ) (xs : Bytes) → take n xs ++ drop n xs ≡ xs
take-drop zero xs = refl
take-drop (suc n) [] = refl
take-drop (suc n) (x ∷ xs) = ap (λ ys. x ∷ ys) (take-drop n xs)

length-drop_le : (n : ℕ) (x : ℕ) (xs : Bytes) → 0 < n → length (drop n (x ∷ xs)) ≤ length xs
length-drop_le zero x xs h = absurd (omega arith)
length-drop_le (suc zero) x xs h = omega arith
length-drop_le (suc (suc n)) x [] h = omega arith
length-drop_le (suc (suc n)) x (y ∷ ys) h = omega (arith, length-drop_le (suc n) y ys)

-- Once a message is there, `io.ReadAll` gives all that is left of it.
read_all-ready :
    (sizes : List ℕ) (c : Conn) (left : Bytes)
    → c.ready ≡ true
    → c.bytes_reader ≡ left
    → All (λ n. 0 < n) sizes
    → length left < length sizes
    → (read_all sizes c).0 ≡ some left
unfolding read_all
read_all-ready [] c left r e p h = absurd (omega arith)
read_all-ready (n ∷ sizes) c [] r e p h = ground arith
read_all-ready (n ∷ sizes) c (b ∷ bs) r e p h =
    let c' = record c { bytes_reader = drop n (b ∷ bs) } in
    ground (
      arith,
      read_all-ready sizes c' (drop n (b ∷ bs)) r refl p.1
          (omega (arith, length-drop_le n b bs p.0)),
      take-drop n (b ∷ bs),
    )

-- A `Read` that waits on a new connection, a message that is not empty, and the reads that
-- follow: together they give the message, when the buffers have room and at least as many of them
-- follow as the message has bytes. No callback is left waiting, and `Close` does not panic.
pub read_all-meet :
    (request_topic response_topic : Bytes) (qos n : ℕ) (sizes : List ℕ) (b : ℕ) (bs : Bytes)
    → 0 < n
    → All (λ size. 0 < size) sizes
    → length bs < length sizes
    → let (given, waits) = read n (new_conn request_topic response_topic qos) in
      let (given', c) = meet (receive (b ∷ bs) waits) in
      (given ≡ blocked)
      × (given' ≡ bytes_read (take n (b ∷ bs)))
      × ((read_all sizes c).0 ≡ some (drop n (b ∷ bs)))
      × (c.senders ≡ 0)
      × ((close c).panicked ≡ false)
unfolding read new_conn meet receive close
read_all-meet request_topic response_topic qos n sizes b bs h p l = (
  refl,
  refl,
  read_all-ready sizes _ (drop n (b ∷ bs)) refl refl p (omega (arith, length-drop_le n b bs h)),
  refl,
  refl,
)

-- Reads of a connection with a message leave its callbacks where they are.
read_all-senders :
    (sizes : List ℕ) (c : Conn) (left : Bytes)
    → c.ready ≡ true
    → c.bytes_reader ≡ left
    → (read_all sizes c).1.senders ≡ c.senders
unfolding read_all
read_all-senders [] c left r e = refl
read_all-senders (n ∷ sizes) c [] r e = ground arith
read_all-senders (n ∷ sizes) c (b ∷ bs) r e =
    let c' = record c { bytes_reader = drop n (b ∷ bs) } in
    ground (arith, read_all-senders sizes c' (drop n (b ∷ bs)) r refl)

-- On an open connection on which no `Read` waits, as before the first `Read` or after it has got
-- a message: when a message comes, whatever reads follow, `Close` makes its callback panic.
pub close-receive :
    (payload : Bytes) (sizes : List ℕ) (c : Conn)
    → c.closed ≡ false
    → c.receiver ≡ none
    → (close (read_all sizes (receive payload c)).1).panicked ≡ true
unfolding close receive
close-receive payload sizes c o w =
    ground (arith, read_all-senders sizes (receive payload c) payload)
