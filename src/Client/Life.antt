-- ===== src/Client/Life.antt =====
-- What the threads of a client do from its start on, and what that does to the accounts.
use dchain.Prelude.{
  ℕ, suc, zero, ◌≡◌, ◌≢◌, refl, List, All, and_then_correct, for_each_correct, Outcome, inl, inr,
  subst, Bool, true, false, if◌then◌else◌,
}
use dchain.Client.State.{Client}
use dchain.Client.Vote.{Calls, vote_pending}
use dchain.Client.Fetch.{add_header, add_headers, add_block, add_blocks, keep_block}
use dchain.Client.Start.{ClientConf, init, running, register, pull_round, blanks, fresh, exited}
use dchain.Client.Accounts.{Blank, Any, vote_queue-Blank}
use dchain.Wire.Codec.{Codec, Decoded-cases}
use Prim.Native.String.{String}

module _ {Bytes Key Db Hash : Type 0} (calls : Calls Key Db Hash) (codec : Codec Bytes) where
  -- One turn of a client, however it ends, with any responses of the servers; a client stops for
  -- good where a turn throws or faults, which this leaves open.
  pub data Turn : Client Key Db → Client Key Db → Type 0 where
    registers : (c : Client Key Db) (key : Key) → Turn c (register c key)
    pulls :
        (c : Client Key Db) (headers shadow_headers blocks shadow_blocks : List Bytes)
        → Turn c (pull_round codec c headers shadow_headers blocks shadow_blocks).0
    votes :
        (c : Client Key Db) (sent : List (ℕ × Bytes))
        → Turn c (vote_pending calls codec (c, sent)).0.0

  pub data Lives (c : Client Key Db) : Client Key Db → Type 0 where
    starts : Lives c c
    turns : {d e : Client Key Db} → Lives c d → Turn d e → Lives c e

started :
    {Key Db : Type 0} (clear : Bool) (db : Db) (f c : Client Key Db)
    → (if clear then exited db else running f) ≡ running c
    → f ≡ c
started true db f c e = cc
started false db f c e = cc

blanks-All : (n : ℕ) → All (λ k. k ≡ "") (blanks n)
blanks-All zero = tt
blanks-All (suc n) = (refl, blanks-All n)

module _ {Bytes Key Db Hash : Type 0} (calls : Calls Key Db Hash) (codec : Codec Bytes)
    (print_empty : (n : ℕ) → calls.print "" n ≡ "")
    (get-put : (db : Db) (k j v buf : String)
      → k ≢ j
      → calls.get (calls.put db k v) j buf ≡ calls.get db j buf)
    (j buf : String) (named : "" ≢ j) where
  -- The key buffers are blank and the account is as it was; how a turn ends is left open.
  abbrev Same : Db → Client Key Db → Type 0
  Same = Blank calls codec print_empty get-put j buf named

  abbrev Open : Outcome → Type 0
  Open = Any calls codec print_empty get-put j buf named

  add_header-Same :
      (db : Db) (c : Client Key Db) (b : Bytes)
      → Same db c
      → Same db (add_header codec c b).0 × Open (add_header codec c b).1
  unfolding add_header
  add_header-Same db c b h = elim (Decoded-cases (codec.header_from_bytes b)) [
    | inl (d, e) ↦ rw (e, add_header) (h, tt)
    | inr (inl e) ↦ rw (e, add_header) (h, tt)
    | inr (inr e) ↦ rw (e, add_header) (h, tt)
  ]

  add_block-Same :
      (db : Db) (c : Client Key Db) (b : Bytes)
      → Same db c
      → Same db (add_block codec c b).0 × Open (add_block codec c b).1
  unfolding add_block keep_block
  add_block-Same db c b h = elim (Decoded-cases (codec.block_from_bytes b)) [
    | inl (d, e) ↦ rw (e, add_block) (h, tt)
    | inr (inl e) ↦ rw (e, add_block) (h, tt)
    | inr (inr e) ↦ rw (e, add_block) (h, tt)
  ]

  headers-Same :
      (db : Db) (hs : List Bytes) (c : Client Key Db)
      → Same db c
      → Same db (add_headers codec c hs).0 × Open (add_headers codec c hs).1
  unfolding add_headers
  headers-Same db hs c h =
      for_each_correct (Same db) Open (add_header codec) tt (add_header-Same db) c hs h

  blocks-Same :
      (db : Db) (bs : List Bytes) (c : Client Key Db)
      → Same db c
      → Same db (add_blocks codec c bs).0 × Open (add_blocks codec c bs).1
  unfolding add_blocks
  blocks-Same db bs c h =
      for_each_correct (Same db) Open (add_block codec) tt (add_block-Same db) c bs h

  Turn-Same : (db : Db) (c d : Client Key Db) → Turn calls codec c d → Same db c → Same db d
  unfolding register pull_round vote_pending
  Turn-Same db _ _ (registers c key) h = h
  Turn-Same db _ _ (pulls c hs hs' bs bs') h =
      (and_then_correct (Same db) Open (add_headers codec c hs) _ (headers-Same db hs c h).0 tt
        (λ c1 h1.
          and_then_correct (Same db) Open (add_headers codec c1 hs') _ (headers-Same db hs' c1 h1).0
            tt
            (λ c2 h2.
              and_then_correct (Same db) Open (add_blocks codec c2 bs) _ (blocks-Same db bs c2 h2).0
                tt (λ c3 h3. blocks-Same db bs' c3 h3)))).0
  Turn-Same db _ _ (votes c sent) h =
      (vote_queue-Blank calls codec print_empty get-put j buf named db (c, sent) c.pending_blks h).0

  Lives-Same : (db : Db) (c d : Client Key Db) → Lives calls codec c d → Same db c → Same db d
  Lives-Same db c _ starts h = h
  Lives-Same db c e (turns {d} l t) h = Turn-Same db d e t (Lives-Same db c d l h)

  -- From the start of a client on, whatever its threads do and the servers answer, `VoteBlocks`
  -- and the rest change no account but the one of the empty key: `init` leaves the key buffers at
  -- size 0 (it reserves room, and does not resize the strings), into which `snprintf` writes
  -- nothing, as `print_empty` says, and a `Put` leaves other keys alone, as `get-put` says.
  pub Lives-untouched :
      (conf : ClientConf) (db : Db) (c d : Client Key Db)
      → init calls conf db ≡ running c
      → Lives calls codec c d
      → calls.get d.db j buf ≡ calls.get db j buf
  unfolding init
  Lives-untouched conf db c d e l =
      let q = started conf.clear_rocksdb _ (fresh conf db) c e in
      let b = blanks-All 2000 in (Lives-Same db c d l (subst (Same db) q (b, b, refl))).2
