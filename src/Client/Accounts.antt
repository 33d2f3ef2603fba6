-- ===== src/Client/Accounts.antt =====
-- Which accounts voting touches.
use dchain.Prelude.{
  ℕ, suc, zero, ◌+◌, ◌≡◌, ◌≢◌, refl, ◌∙◌, Option, none, some, List, [], ◌∷◌, arith, All, subst, sym,
  ap, get_elem?, set, Outcome, and_then_correct, Option-cases, inl, inr,
}
use dchain.Entity.Block.{Block}
use dchain.Entity.Transaction.{Transaction}
use dchain.Client.State.{Client}
use dchain.Client.Vote.{
  Calls, print_at, print_accounts, touch_at, touch_accounts, send_vote, cast_vote, vote_queue,
  vote_pending,
}
use dchain.Wire.Codec.{Codec}
use Prim.Native.String.{String}

All-set :
    {A : Type 0} (P : A → Type 0) (xs : List A) (i : ℕ) (v : A)
    → P v
    → All P xs
    → All P (set xs i v)
unfolding set
All-set P [] i v p a = tt
All-set P (x ∷ xs) zero v p a = (p, a.1)
All-set P (x ∷ xs) (suc i) v p a = (a.0, All-set P xs i v p a.1)

All-get_elem? :
    {A : Type 0} (P : A → Type 0) (xs : List A) (i : ℕ)
    → All P xs
    → (x : A) → get_elem? xs i ≡ some x
    → P x
unfolding get_elem?
All-get_elem? P [] i a x e = cc
All-get_elem? P (y ∷ ys) zero a x e = subst P (ground (arith, e)) a.0
All-get_elem? P (y ∷ ys) (suc i) a x e = All-get_elem? P ys i a.1 x e

module _ {Bytes Key Db Hash : Type 0} (calls : Calls Key Db Hash) (codec : Codec Bytes)
    (print_empty : (n : ℕ) → calls.print "" n ≡ "")
    (get-put : (db : Db) (k j v buf : String)
      → k ≢ j
      → calls.get (calls.put db k v) j buf ≡ calls.get db j buf)
    (j buf : String) (named : "" ≢ j) where
  open calls use {print, get, put}

  -- Every key buffer has the size 0, and the account `j` is as in `db`.
  abbrev pub Blank : Db → Client Key Db → Type 0
  Blank db c =
      All (λ k. k ≡ "") c.sender_strvec
      × All (λ k. k ≡ "") c.receiver_strvec
      × (get c.db j buf ≡ get db j buf)

  -- The outcome is left open.
  abbrev pub Any : Outcome → Type 0
  Any o = Unit

  print_at-Blank :
      (db : Db) (c : Client Key Db) (i : ℕ) (tx : Transaction) (s r : Option String)
      → get_elem? c.sender_strvec i ≡ s
      → get_elem? c.receiver_strvec i ≡ r
      → Blank db c
      → Blank db (print_at calls c i tx s r).0
  unfolding print_at
  print_at-Blank db c i tx none r e f h = h
  print_at-Blank db c i tx (some s) none e f h = h
  print_at-Blank db c i tx (some s) (some r) e f (a, b, k) = (
    All-set _ c.sender_strvec i (print s tx.sender)
        (ap (λ x. print x tx.sender) (All-get_elem? _ c.sender_strvec i a s e)
          ∙ print_empty tx.sender)
        a,
    All-set _ c.receiver_strvec i (print r tx.receiver)
        (ap (λ x. print x tx.receiver) (All-get_elem? _ c.receiver_strvec i b r f)
          ∙ print_empty tx.receiver)
        b,
    k,
  )

  print_accounts-Blank :
      (db : Db) (c : Client Key Db) (i : ℕ) (txs : List Transaction)
      → Blank db c
      → Blank db (print_accounts calls c i txs).0 × Any (print_accounts calls c i txs).1
  unfolding print_accounts
  print_accounts-Blank db c i [] h = (h, tt)
  print_accounts-Blank db c i (tx ∷ txs) h =
      and_then_correct (Blank db) Any
        (print_at calls c i tx (get_elem? c.sender_strvec i) (get_elem? c.receiver_strvec i)) _
        (print_at-Blank db c i tx _ _ refl refl h) tt (λ c'. print_accounts-Blank db c' (i + 1) txs)

  touch_at-Blank :
      (db : Db) (c : Client Key Db) (i : ℕ) (s r s_bal r_bal : Option String)
      → get_elem? c.sender_strvec i ≡ s
      → get_elem? c.receiver_strvec i ≡ r
      → Blank db c
      → Blank db (touch_at calls c i s r s_bal r_bal).0
  unfolding touch_at
  touch_at-Blank db c i none r sb rb e f h = h
  touch_at-Blank db c i (some s) none sb rb e f h = h
  touch_at-Blank db c i (some s) (some r) none rb e f h = h
  touch_at-Blank db c i (some s) (some r) (some sb) none e f h = h
  touch_at-Blank db c i (some s) (some r) (some sb) (some rb) e f (a, b, k) =
      let s_empty = All-get_elem? _ c.sender_strvec i a s e in
      let r_empty = All-get_elem? _ c.receiver_strvec i b r f in
      (
        a,
        b,
        get-put _ r j _ buf (λ q. named (sym r_empty ∙ q))
            ∙ get-put c.db s j _ buf (λ q. named (sym s_empty ∙ q))
            ∙ k,
      )

  touch_accounts-Blank :
      (db : Db) (c : Client Key Db) (i : ℕ) (txs : List Transaction)
      → Blank db c
      → Blank db (touch_accounts calls c i txs).0 × Any (touch_accounts calls c i txs).1
  unfolding touch_accounts
  touch_accounts-Blank db c i [] h = (h, tt)
  touch_accounts-Blank db c i (tx ∷ txs) h =
      and_then_correct (Blank db) Any
        (touch_at calls c i (get_elem? c.sender_strvec i) (get_elem? c.receiver_strvec i)
          (get_elem? c.sender_bal_strvec i) (get_elem? c.receiver_bal_strvec i))
        _ (touch_at-Blank db c i _ _ _ _ refl refl h) tt
        (λ c'. touch_accounts-Blank db c' (i + 1) txs)

  cast_vote-Blank :
      (db : Db) (v : Client Key Db × List (ℕ × Bytes)) (b : Block)
      → Blank db v.0
      → Blank db (cast_vote calls codec v b).0.0 × Any (cast_vote calls codec v b).1
  unfolding cast_vote send_vote
  cast_vote-Blank db (c, sent) b h =
      let (p, q) = print_accounts-Blank db c 0 b.tx_vec h in
      let (p', q') =
        and_then_correct (Blank db) Any (print_accounts calls c 0 b.tx_vec)
          (λ c'. touch_accounts calls c' 0 b.tx_vec) p q
          (λ c' h'. touch_accounts-Blank db c' 0 b.tx_vec h') in
      and_then_correct {S = Client Key Db × List (ℕ × Bytes)} (λ w. Blank db w.0) Any _
        (λ w. send_vote calls codec w b w.0.tss_key) p' q'
        (λ w h'. elim (Option-cases w.0.tss_key) [
          | inl e ↦ rw (e, send_vote) (h', tt)
          | inr (key, e) ↦ rw (e, send_vote) (h', tt)
        ])

  pub vote_queue-Blank :
      (db : Db) (v : Client Key Db × List (ℕ × Bytes)) (queue : List Block)
      → Blank db v.0
      → Blank db (vote_queue calls codec v queue).0.0 × Any (vote_queue calls codec v queue).1
  unfolding vote_queue
  vote_queue-Blank db v [] h = (h, tt)
  vote_queue-Blank db (c, sent) (b ∷ queue) h =
      let (p, q) = cast_vote-Blank db (record c { pending_blks = queue }, sent) b h in
      and_then_correct (λ w. Blank db w.0) Any
        (cast_vote calls codec (record c { pending_blks = queue }, sent) b) _ p q
        (λ w h'. vote_queue-Blank db w queue h')

  -- With key buffers of size 0, as `init` leaves them (it reserves room, and does not resize the
  -- strings), `snprintf` writes no key, and so `TcClient::VoteBlocks` changes no account but the
  -- one of the empty key, whoever sends and receives in the blocks. `print_empty` says that
  -- `snprintf` into 0 bytes writes nothing, `get-put` that a write leaves other keys alone.
  vote_pending_untouched :
      (c : Client Key Db) (sent : List (ℕ × Bytes))
      → All (λ k. k ≡ "") c.sender_strvec
      → All (λ k. k ≡ "") c.receiver_strvec
      → get (vote_pending calls codec (c, sent)).0.0.db j buf ≡ get c.db j buf
  unfolding vote_pending
  vote_pending_untouched c sent a b =
      (vote_queue-Blank c.db (c, sent) c.pending_blks (a, b, refl)).0.2
