-- ===== src/Streaming/Finalize.antt =====
-- The relay finalizes its hold once, and as the ending says.
use enterprise_llm_gateway.Reservations
use enterprise_llm_gateway.Ledger as LedgerStore
use enterprise_llm_gateway.Prelude.{
  List, Option, Text, [], ap, arith, false, if-cases, inl, inr, nat_eq, none, pair_eq, refl, some,
  suc, sym, text_eq, true, zero, ℕ, ◌++◌, ◌+◌, ◌∙◌, ◌∷◌, ◌≡◌,
}
use enterprise_llm_gateway.Prelude.Dict.{get}
use enterprise_llm_gateway.Prelude.Int.{pos, ℤ, ◌+ℤ◌}
use enterprise_llm_gateway.Prelude.Result.{Result, Result-cases, err, ok}
use enterprise_llm_gateway.Accounting.{AccountingDefect, CostRecord, account, settlement_detail}
use enterprise_llm_gateway.Execution.Charges.{charged, plus_zero, settle-charged, settle-defective}
use enterprise_llm_gateway.Ledger.{
  Ledger, Reservation, Status, is_reserved, ledger_for, released, unavailable,
}
use enterprise_llm_gateway.Ledger.Account.{Stands, release-Stands, settle-Stands}
use enterprise_llm_gateway.Ledger.Holds.{held_at}
use enterprise_llm_gateway.Ports.{ProviderDescriptor, ProviderErrorCategory, ProviderUsage}
use enterprise_llm_gateway.StreamPort.{
  ProviderStream, ProviderStreamEvent, Upstream, aclose_stream, chunk, completed, emit, failed,
  finish_stream, label_after, pull, raises, stopped,
}
use enterprise_llm_gateway.Streaming.{
  Delivery, InferenceStreamEvent, Relayed, abandon, assembled, broken, complete, delivered,
  fail_stream, observe_stream, relay, release_quietly, settle_stream, store_stream, terminal_events,
  unaccountable,
}
use enterprise_llm_gateway.Streaming.Endings.{
  Ending, accounted, bill, breaks, cached, chunks, completes, ending, fails, farewell, is_break,
  kept, leaves, observed, stops, verdict,
}
use enterprise_llm_gateway.World.{Env, StreamLabel, World}

-- The store answers, so much is spent, and nothing is held under the identifier.
pub record Closed (org : ℕ) (corr : Text) (spent : ℤ) (s : Ledger) : Type 0 where
  pub up : s.unavailable ≡ false
  pub spent_is : (ledger_for org s).spent ≡ spent
  pub nothing_held : held_at (get corr (ledger_for org s).reservations) ≡ pos 0

pub Stands-Closed :
    (org : ℕ) (corr : Text) (spent : ℤ) (entry : Option Reservation) (s : Ledger)
    → held_at entry ≡ pos 0
    → Stands org corr spent entry s
    → Closed org corr spent s
Stands-Closed org corr spent entry s free h = record {
  up = h.up;
  spent_is = h.spent_is;
  nothing_held = ap held_at h.entry_is ∙ free;
}

pub release-Closed :
    (org : ℕ) (corr : Text) (spent : ℤ) (r : Reservation) (s : Ledger)
    → is_reserved r.status ≡ true
    → Stands org corr spent (some r) s
    → Closed org corr (spent +ℤ pos 0) (LedgerStore.release org corr s).1
release-Closed org corr spent r s live h = rw (plus_zero spent) (
    Stands-Closed org corr spent (some (record r { status = Status.released }))
      (LedgerStore.release org corr s).1 refl (release-Stands org corr spent r s live h).1)

-- The stream that is being relayed has not finished.
abbrev pub running : ProviderDescriptor → StreamLabel → Upstream → ProviderStream
running provider label u = record {
  provider = provider.name;
  upstream = u;
  outcome = label;
  finished = false;
}

module _ (E : Env) where
  open E use {Client, price_for, clock}

  -- What the ending of a delivery leaves, from the world in which its hold stood.
  pub record Finalized (d : Delivery) (spent : ℤ) (e : Ending) (w w' : World Client) : Type 0 where
    pub closed :
        Closed d.organization_id d.correlation_id (spent +ℤ charged (bill price_for d e)) w'.ledger
    pub breaker_is : w'.breaker ≡ observed d (clock w.readings) (verdict e) w.breaker
    pub cache_is : w'.cache ≡ cached d (clock (w.readings + 1)) (kept price_for d e) w.cache

  Finalized-aclose :
      (d : Delivery) (spent : ℤ) (e : Ending) (s : ProviderStream) (w w' : World Client)
      → Finalized d spent e w w'
      → Finalized d spent e w (aclose_stream s w')
  unfolding aclose_stream
  Finalized-aclose d spent e s w w' h =
      if-cases (Finalized d spent e w) s.finished (λ over. h)
        (λ running. record { closed = h.closed; breaker_is = h.breaker_is; cache_is = h.cache_is })

  abbrev pub Holds : Delivery → ℤ → Reservation → World Client → Type 0
  Holds d spent r w =
      (is_reserved r.status ≡ true)
      × Stands d.organization_id d.correlation_id spent (some r) w.ledger

  abandon-Finalized :
      (d : Delivery) (spent : ℤ) (e : Ending) (r : Reservation) (s : ProviderStream)
      (w : World Client)
      → verdict e ≡ none
      → kept price_for d e ≡ none
      → bill price_for d e ≡ none
      → Holds d spent r w
      → Finalized d spent e w (abandon E d s w)
  unfolding abandon release_quietly Reservations.release
  abandon-Finalized d spent e r s w silent uncached free (live, h) =
      Finalized-aclose d spent e s w (release_quietly E d.organization_id d.correlation_id w)
        (record {
          closed =
              rw free (release-Closed d.organization_id d.correlation_id spent r w.ledger live h);
          breaker_is = rw silent;
          cache_is = rw uncached;
        })

  fail_stream-Finalized :
      (d : Delivery) (spent : ℤ) (e : Ending) (c : Option ProviderErrorCategory) (r : Reservation)
      (s : ProviderStream) (w : World Client)
      → verdict e ≡ some (record { ok = false; error_category = c })
      → kept price_for d e ≡ none
      → bill price_for d e ≡ none
      → Holds d spent r w
      → Finalized d spent e w (aclose_stream s (fail_stream E d c w))
  unfolding fail_stream observe_stream release_quietly Reservations.release
  fail_stream-Finalized d spent e c r s w told uncached free (live, h) =
      Finalized-aclose d spent e s w (fail_stream E d c w) (record {
        closed =
            rw free (release-Closed d.organization_id d.correlation_id spent r w.ledger live h);
        breaker_is = rw told;
        cache_is = rw uncached;
      })

  priced : Delivery → Text → ProviderUsage → Result AccountingDefect CostRecord
  priced d content usage =
      account price_for (assembled d.provider content usage) d.provider d.organization_id
        d.correlation_id

  settle_stream-defect :
      (d : Delivery) (content : Text) (usage : ProviderUsage) (w : World Client)
      (e : AccountingDefect)
      → priced d content usage ≡ err e
      → settle_stream E d content usage w
        ≡ (some unaccountable, release_quietly E d.organization_id d.correlation_id w)
  unfolding settle_stream priced
  settle_stream-defect d content usage w e f = ground (
    arith,
    settle-defective E d.organization_id d.correlation_id (assembled d.provider content usage)
        d.provider w e f,
  )

  settle_stream-billed :
      (d : Delivery) (content : Text) (usage : ProviderUsage) (w : World Client) (c : CostRecord)
      → priced d content usage ≡ ok c
      → let (answer, s') =
          LedgerStore.settle d.organization_id d.correlation_id (settlement_detail c) w.ledger in
        answer ≡ ok tt
        → settle_stream E d content usage w ≡ (
          none,
          store_stream E d.organization_id d.provider d.key content (record w { ledger = s' }),
        )
  unfolding settle_stream priced
  settle_stream-billed d content usage w c f paid = ground (
    arith,
    settle-charged E d.organization_id d.correlation_id (assembled d.provider content usage)
        d.provider w c f paid,
  )

  -- What a completed stream is billed decides what is cached and shown.
  bill-ending :
      (d : Delivery) (content : Text) (usage : ProviderUsage) (o : Option CostRecord)
      → accounted (priced d content usage) ≡ o
      → let e = completes (some usage) content in
        (bill price_for d e ≡ o)
        × (kept price_for d e ≡ elim o [ none ↦ none | some c ↦ some content ])
        × (farewell price_for d e ≡ elim o [ none ↦ broken unaccountable ∷ [] | some c ↦ [] ])
  unfolding bill kept farewell priced
  bill-ending d content usage none f = (f, ground arith, ground arith)
  bill-ending d content usage (some c) f = (f, ground arith, ground arith)

  settle_stream-Finalized :
      (d : Delivery) (spent : ℤ) (content : Text) (usage : ProviderUsage) (r : Reservation)
      (s : ProviderStream) (w : World Client)
      → Holds d spent r w
      → let (terminal, w') =
          settle_stream E d content usage
            (observe_stream E d.organization_id d.provider true none w) in
        Finalized d spent (completes (some usage) content) w (aclose_stream s w')
        × (terminal_events terminal ≡ farewell price_for d (completes (some usage) content))
  unfolding observe_stream release_quietly Reservations.release verdict store_stream
      settlement_detail
  settle_stream-Finalized d spent content usage r s w (live, h) =
      let org = d.organization_id in
      let corr = d.correlation_id in
      let e = completes (some usage) content in
      let w1 = observe_stream E org d.provider true none w in
      elim (Result-cases (priced d content usage)) [
        | inr (wrong, f) ↦
            let (free, uncached, shown) = bill-ending d content usage none (ap accounted f) in
            rw (settle_stream-defect d content usage w1 wrong f) (
              Finalized-aclose d spent e s w (release_quietly E org corr w1) (record {
                closed = rw free (release-Closed org corr spent r w.ledger live h);
                breaker_is = refl;
                cache_is = rw uncached refl;
              }),
              sym shown,
            )
        | inl (c, f) ↦
            let (paid, after) =
              settle-Stands org corr spent (settlement_detail c) r w.ledger live h in
            let s' = (LedgerStore.settle org corr (settlement_detail c) w.ledger).1 in
            let (billed, stored, shown) = bill-ending d content usage (some c) (ap accounted f) in
            rw (settle_stream-billed d content usage w1 c f paid) (
              Finalized-aclose d spent e s w
                  (store_stream E org d.provider d.key content (record w1 { ledger = s' }))
                  (record {
                    closed = rw billed (
                        Stands-Closed org corr (spent +ℤ charged (some c))
                          (some (record r { status = Status.committed })) s' refl after);
                    breaker_is = refl;
                    cache_is = rw stored refl;
                  }),
              sym shown,
            )
      ]

  complete-Finalized :
      (d : Delivery) (spent : ℤ) (content : Text) (usage : Option ProviderUsage) (r : Reservation)
      (s : ProviderStream) (w : World Client)
      → Holds d spent r w
      → let (terminal, w') = complete E d content usage w in
        Finalized d spent (completes usage content) w (aclose_stream s w')
        × (terminal_events terminal ≡ farewell price_for d (completes usage content))
  unfolding complete observe_stream release_quietly Reservations.release bill kept verdict farewell
  complete-Finalized d spent content none r s w (live, h) = (
    Finalized-aclose d spent (completes none content) s w (complete E d content none w).1 (record {
      closed = release-Closed d.organization_id d.correlation_id spent r w.ledger live h;
      breaker_is = refl;
      cache_is = refl;
    }),
    refl,
  )
  complete-Finalized d spent content (some usage) r s w standing =
      settle_stream-Finalized d spent content usage r s w standing

  unfoldable pub Relays :
      Delivery → ℤ → ℕ → Text → Upstream → World Client → Relayed × World Client → Type 0
  Relays d spent n content u w z =
      let e = ending n content u in
      Finalized d spent e w z.1
      × (z.0.events ≡ chunks n u ++ farewell price_for d e)
      × (z.0.raised ≡ is_break e)

  pub relay-Relays :
      (d : Delivery) (spent : ℤ) (r : Reservation) (n : ℕ) (content : Text)
      (event : ProviderStreamEvent) (label : StreamLabel) (u : Upstream) (w : World Client)
      → Holds d spent r w
      → Relays d spent
          (suc n)
          content
          (emit event u)
          w
          (relay E d n content event (running d.provider label u) w)
  unfolding Relays relay pull finish_stream ending chunks verdict farewell kept bill
  relay-Relays d spent r n content (failed f) label u w standing = (
    fail_stream-Finalized d spent (fails f) f.error_category r (running d.provider label u) w refl
        refl refl standing,
    refl,
    refl,
  )
  relay-Relays d spent r n content (completed usage) label u w standing =
      let (h, shown) =
        complete-Finalized d spent content usage r (running d.provider label u) w standing in
      (h, shown, refl)
  relay-Relays d spent r zero content (chunk c) label u w standing = (
    abandon-Finalized d spent leaves r (running d.provider label u) w refl refl refl standing,
    refl,
    refl,
  )
  relay-Relays d spent r (suc n) content (chunk c) label (emit event u) w standing =
      let (h, shown, through) =
        relay-Relays d spent r n (content ++ c) event (label_after event label) u w standing in
      (h, ap (λ (es : List InferenceStreamEvent). delivered c ∷ es) shown, through)
  relay-Relays d spent r (suc n) content (chunk c) label stopped w standing =
      let (s', w') = finish_stream (running d.provider label stopped) w in
      let h = fail_stream-Finalized d spent stops none r s' w' refl refl refl standing in
      (record { closed = h.closed; breaker_is = h.breaker_is; cache_is = h.cache_is }, refl, refl)
  relay-Relays d spent r (suc n) content (chunk c) label raises w standing =
      let (s', w') = finish_stream (running d.provider label raises) w in
      let h = abandon-Finalized d spent breaks r s' w' refl refl refl standing in
      (record { closed = h.closed; breaker_is = h.breaker_is; cache_is = h.cache_is }, refl, refl)
