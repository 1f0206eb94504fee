-- ===== src/Phase2/Mailbox/Contents.antt =====
-- A mailbox as a queue of payloads, and the two operations that never wait, MboxCondSend and
-- MboxCondRecv of phase2/phase2.c, as the operations of that queue.
use process_control.Base.{
  ℕ, ◌<◌, ◌≡◌, ◌∙◌, refl, true, false, some, List, [], ◌∷◌, ◌++◌, arith, length, length-append, has,
}
use process_control.Base.Int.{pos}
use process_control.Base.Chain.{Chain-frame}
use process_control.Phase2.State.{Message, State, max_slots, put_message}
use process_control.Phase2.Slots.Search.{in_use}
use process_control.Phase2.Queue.{mail_links, add_to_mail_queue}
use process_control.Phase2.Queue.Fifo.{HasMail, add_to_mail_queue-MailAppended}
use process_control.Phase2.Mailbox.Send.{filled}

-- The slots `xs` are in use and hold the payloads `q`, each with its size.
abbrev pub Contents : State → List ℕ → List (List ℕ) → Type 0
Contents s [] [] = Unit {0}
Contents s [] (d ∷ q) = ⊥
Contents s (x ∷ xs) [] = ⊥
Contents s (x ∷ xs) (d ∷ q) =
    (in_use s x ≡ true)
    × ((s.message_slots x).message ≡ some d)
    × ((s.message_slots x).message_size_limit ≡ pos (length d))
    × Contents s xs q

-- Mailbox `b` is open and holds the payloads `q`, oldest first, in the slots `xs`.
pub record Holds (s : State) (b : ℕ) (xs : List ℕ) (q : List (List ℕ)) : Type 0 where
  pub mail : HasMail s b xs
  pub contents : Contents s xs q
  pub is_open : (s.mb_table b).is_initialized ≡ true

pub not-has-free :
    (s : State) (xs : List ℕ) (q : List (List ℕ)) (i : ℕ)
    → Contents s xs q
    → in_use s i ≡ false
    → has i xs ≡ false
not-has-free s [] [] i c free = refl
not-has-free s [] (d ∷ q) i c free = absurd c
not-has-free s (x ∷ xs) [] i c free = absurd c
not-has-free s (x ∷ xs) (d ∷ q) i c free = ground (arith, not-has-free s xs q i c.3 free)

-- The three fields of a message that a queue of payloads rests on.
abbrev pub SameMessage : Message → Message → Type 0
SameMessage m n =
    (m.is_initialized ≡ n.is_initialized)
    × (m.message ≡ n.message)
    × (m.message_size_limit ≡ n.message_size_limit)

pub Contents-frame :
    (s t : State) (xs : List ℕ) (q : List (List ℕ))
    → ((i : ℕ) → has i xs ≡ true → SameMessage (t.message_slots i) (s.message_slots i))
    → Contents s xs q
    → Contents t xs q
Contents-frame s t [] [] same c = tt
Contents-frame s t [] (d ∷ q) same c = c
Contents-frame s t (x ∷ xs) [] same c = c
Contents-frame s t (x ∷ xs) (d ∷ q) same c =
    let here = same x (ground arith) in
    (
      rw here.0 c.0,
      rw here.1 c.1,
      rw here.2 c.2,
      Contents-frame s t xs q (λ i h. same i (ground arith)) c.3,
    )

pub Contents-append :
    (s : State) (xs : List ℕ) (q : List (List ℕ)) (m : ℕ) (d : List ℕ)
    → Contents s xs q
    → in_use s m ≡ true
    → (s.message_slots m).message ≡ some d
    → (s.message_slots m).message_size_limit ≡ pos (length d)
    → Contents s (xs ++ m ∷ []) (q ++ d ∷ [])
Contents-append s [] [] m d c u p z = (u, p, z, tt)
Contents-append s [] (e ∷ q) m d c u p z = absurd c
Contents-append s (x ∷ xs) [] m d c u p z = absurd c
Contents-append s (x ∷ xs) (e ∷ q) m d c u p z =
    (c.0, c.1, c.2, Contents-append s xs q m d c.3 u p z)

-- The state with the counter moved and the slot `m` filled.
abbrev pub fill : ℕ → ℕ → List ℕ → ℕ → State → State
fill c m d n s =
    put_message m (filled (s.message_slots m) d (pos n)) (record s { message_id_counter = c })

module _ (s : State) (b : ℕ) (xs : List ℕ) (q : List (List ℕ)) (h : Holds s b xs q) (c m n : ℕ)
    (d : List ℕ) (free : in_use s m ≡ false) (size : length d ≡ n)
    (room : length xs < max_slots) where
  new : has m xs ≡ false
  new = not-has-free s xs q m h.contents free

  fill-HasMail : HasMail (fill c m d n s) b xs
  fill-HasMail = record {
    chain =
        Chain-frame (mail_links s) (mail_links (fill c m d n s)) _ xs (λ i k. ground (arith, new))
          h.mail.chain;
    distinct = h.mail.distinct;
    short = h.mail.short;
  }

  -- A free slot filled and put behind the queue: the queue of payloads has one more.
  pub fill-append :
      (u : State) × (add_to_mail_queue b m (fill c m d n s) ≡ some u)
      × Holds u b (xs ++ m ∷ []) (q ++ d ∷ [])
  fill-append =
      let (u, run, a) = add_to_mail_queue-MailAppended (fill c m d n s) b m xs fill-HasMail new in
      (
        u,
        run,
        record {
          mail = record {
            chain = a.chain;
            distinct = a.distinct;
            short = omega (arith, length-append xs (m ∷ []));
          };
          contents =
              Contents-append u xs q m d
                (Contents-frame s u xs q
                  (λ i k. (
                    a.in_use i ∙ ground (arith, new),
                    a.payloads i ∙ ground (arith, new),
                    a.sizes i ∙ ground (arith, new),
                  ))
                  h.contents)
                (a.in_use m ∙ ground arith) (a.payloads m ∙ ground arith)
                (a.sizes m ∙ rw size (ground arith));
          is_open = a.opened ∙ h.is_open;
        },
      )
