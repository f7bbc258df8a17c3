-- ===== src/WebSocket/Frames.antt =====
-- The messages of a WebSocket, as gorilla/websocket documents them.
use yodi.Base.{
  ℕ, zero, suc, ◌-◌, ◌≤◌, ◌≡◌, ◌⊎◌, Bytes, List, [], ◌∷◌, ◌++◌, length, take, drop, Option, none,
  some, ok, err, Error, arith,
}
use yodi.WebSocket.{WebSocket, binary_message}

abbrev pub concat : List Bytes → Bytes
concat [] = []
concat (f ∷ fs) = f ++ concat fs

-- What the documentation of gorilla/websocket promises, of a peer that sends binary messages and then hangs up: `current` is what is
-- unread of the message at hand, `waiting` are those that have not begun.
pub record IsFramed (ws : WebSocket) : Type 0 where
  pub current : ws.Socket → Bytes
  pub waiting : ws.Socket → List Bytes
  pub sent : ws.Socket → Bytes
  pub next_frame :
      (s : ws.Socket) (f : Bytes) (fs : List Bytes)
      → waiting s ≡ f ∷ fs
      → ((ws.next_reader s).0 ≡ ok binary_message)
        × (current (ws.next_reader s).1 ≡ f)
        × (waiting (ws.next_reader s).1 ≡ fs)
        × (sent (ws.next_reader s).1 ≡ sent s)
  pub no_frame : (s : ws.Socket) → waiting s ≡ [] → (e : Error) × ((ws.next_reader s).0 ≡ err e)
  -- A read gives some of the bytes of the message, with the error of its end beside the last ones or after them.
  pub some_bytes :
      (s : ws.Socket) (n b : ℕ) (bs : Bytes)
      → current s ≡ b ∷ bs
      → (x : ℕ) × (chunk : Bytes) × (end : Option Error) × ((ws.read_frame (suc n) s).0
          ≡ (x ∷ chunk, end))
        × ((x ∷ chunk) ++ current (ws.read_frame (suc n) s).1 ≡ b ∷ bs)
        × (length chunk ≤ n)
        × ((end ≡ none) ⊎ (end ≡ some Error.eof) × (current (ws.read_frame (suc n) s).1 ≡ []))
  pub at_end :
      (s : ws.Socket) (n : ℕ)
      → current s ≡ []
      → ((ws.read_frame (suc n) s).0 ≡ ([], some Error.eof))
        × (current (ws.read_frame (suc n) s).1 ≡ [])
  pub same_waiting : (s : ws.Socket) (n : ℕ) → waiting (ws.read_frame n s).1 ≡ waiting s
  pub same_sent : (s : ws.Socket) (n : ℕ) → sent (ws.read_frame n s).1 ≡ sent s
  pub written :
      (s : ws.Socket) (b : Bytes)
      → ((ws.write_message binary_message b s).0 ≡ ok tt)
        × (sent (ws.write_message binary_message b s).1 ≡ sent s ++ b)
        × (current (ws.write_message binary_message b s).1 ≡ current s)
        × (waiting (ws.write_message binary_message b s).1 ≡ waiting s)

pub take-append_le :
    (n : ℕ) (xs ys : Bytes) → length xs ≤ n → take n (xs ++ ys) ≡ xs ++ take (n - length xs) ys
take-append_le n [] ys h = ground arith
take-append_le zero (x ∷ xs) ys h = absurd (ground arith)
take-append_le (suc n) (x ∷ xs) ys h = ground (arith, take-append_le n xs ys (ground arith))

pub append-nil_right : (xs ys : Bytes) → xs ++ ys ≡ [] → ys ≡ []
append-nil_right [] ys e = e
append-nil_right (x ∷ xs) ys e = absurd (ground (arith, e))

pub the_rest : (n : ℕ) (xs : Bytes) → length xs ≡ 0 → suc n - length xs ≡ suc n
the_rest n xs h = ground (arith, h)

pub drop-append_le :
    (n : ℕ) (xs ys : Bytes) → length xs ≤ n → drop n (xs ++ ys) ≡ drop (n - length xs) ys
drop-append_le n [] ys h = ground arith
drop-append_le zero (x ∷ xs) ys h = absurd (ground arith)
drop-append_le (suc n) (x ∷ xs) ys h = ground (arith, drop-append_le n xs ys (ground arith))
