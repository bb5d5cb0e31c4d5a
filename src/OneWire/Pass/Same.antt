-- ===== src/OneWire/Pass/Same.antt =====
-- The search is the same over the bus of devices as the timer meets it and over the bus that it expects.
use stm32_async_1wire.Prelude.{
  ℕ, zero, suc, true, false, ◌⊎◌, inl, inr, List, ◌≡◌, ◌≢◌, refl, sym, ap, ◌∙◌, arith,
}
use mathlib.Core.Path.{subst}
use stm32_async_1wire.OneWire.{
  Phase, Search, Bus, reset, cmd, read_pair, write_read, write_dir, done, search_poll,
  search_poll_phase,
}
use stm32_async_1wire.OneWire.Pass.{Rom}
use stm32_async_1wire.OneWire.Pass.Served.{Line, completed, serve, serve_all}
use stm32_async_1wire.OneWire.Pass.Wired.{Wired, Stage, operate, deliver, turn, turns}
use stm32_async_1wire.OneWire.Pass.Simulated.{opcode, stage_after, IsArmed, Arms, arms-IsArmed}
use stm32_async_1wire.OneWire.Pass.Followed.{poll-IsPolled}

is_done_or : (phase : Phase) → (phase ≡ done) ⊎ (phase ≢ done)
is_done_or reset = inr (λ h. cc)
is_done_or cmd = inr (λ h. cc)
is_done_or read_pair = inr (λ h. cc)
is_done_or write_read = inr (λ h. cc)
is_done_or write_dir = inr (λ h. cc)
is_done_or done = inl refl

module _ {S : Type 0} where
  -- While the search goes on.
  pub record IsGoing (code : ℕ) (all : List Rom) (w : Wired S) (l : Line S) : Type 0 where
    pub unfinished : l.bus.search.finished ≡ false
    pub bus_is : w.bus ≡ l.bus
    pub arms : Arms code all l.bus w.stage w.active l.active

  -- The two buses are at the same point.
  pub record IsSame (code : ℕ) (all : List Rom) (w : Wired S) (l : Line S) : Type 0 where
    pub search_is : w.bus.search ≡ l.bus.search
    pub owner_is : w.bus.owner ≡ l.bus.owner
    pub code_is : opcode l.bus.search.command ≡ code
    pub going : l.bus.search.phase ≢ done → IsGoing code all w l

  operate_search :
      (code : ℕ) (all : List Rom) (w : Wired S)
      → ((operate code all w).bus.search ≡ w.bus.search)
        × ((operate code all w).bus.owner ≡ w.bus.owner)
  unfolding operate deliver
  operate_search code all w = ground arith

  poll_done :
      (b : Bus S)
      → b.search.phase ≡ done
      → ((search_poll b).0.search ≡ record (b.search) { finished = true })
        × ((search_poll b).0.owner ≡ b.owner)
  unfolding search_poll search_poll_phase
  poll_done b h = ground (arith, h)

  -- Both polls of an ended search finish it.
  ended-IsSame :
      (code : ℕ) (all : List Rom) (w : Wired S) (l : Line S)
      → IsSame code all w l
      → l.bus.search.phase ≡ done
      → IsSame code all (turn code all w) (serve all l)
  unfolding turn serve completed
  ended-IsSame code all w l s h =
      let o = operate_search code all w in
      let there =
        poll_done (operate code all w).bus
          (ap (λ (c : Search S). c.phase) (o.0 ∙ s.search_is) ∙ h) in
      let here = poll_done (completed l.bus l.active) h in
      record {
        search_is =
            there.0
            ∙ ap (λ (c : Search S). record c { finished = true }) (o.0 ∙ s.search_is)
            ∙ sym here.0;
        owner_is = there.1 ∙ o.1 ∙ s.owner_is ∙ sym here.1;
        code_is = ap (λ (c : Search S). opcode c.command) here.0 ∙ s.code_is;
        going = λ n. absurd (n (ap (λ (c : Search S). c.phase) here.0 ∙ h));
      }

  going-IsSame :
      (code : ℕ) (all : List Rom) (w : Wired S) (l : Line S)
      → IsSame code all w l
      → l.bus.search.phase ≢ done
      → IsSame code all (turn code all w) (serve all l)
  unfolding turn serve
  going-IsSame code all w l s n =
      let g = s.going n in
      let at : w ≡ (record { bus = l.bus; stage = w.stage; active = w.active }) =
        ap (λ (b : Bus S). record { bus = b; stage = w.stage; active = w.active }) g.bus_is in
      let a : IsArmed code all w l =
        subst (λ (v : Wired S). IsArmed code all v l) (sym at)
          (arms-IsArmed code all l.bus w.stage w.active l.active g.arms n) in
      let v = operate code all w in
      let p =
        poll-IsPolled code all l v.stage v.active l.bus.search.phase n refl g.unfinished
          s.code_is in
      let bus_is = ap (λ (b : Bus S). (search_poll b).0) a.bus_is in
      record {
        search_is = ap (λ (b : Bus S). b.search) bus_is;
        owner_is = ap (λ (b : Bus S). b.owner) bus_is;
        code_is = ap opcode p.on.command_kept ∙ s.code_is;
        going = λ m. record {
          unfinished = p.on.finished_kept ∙ g.unfinished;
          bus_is = bus_is;
          arms =
              subst
                (λ (st : Stage). Arms code all (serve all l).bus st v.active (serve all l).active)
                (sym a.stage_is)
                (subst
                  (λ (ds : List Rom).
                    Arms code all (serve all l).bus (stage_after l.bus.search.phase v.stage) ds
                      (serve all l).active)
                  (sym a.active_is) p.arms);
        };
      }

  -- The two buses stay at the same point.
  pub turns-IsSame :
      (n code : ℕ) (all : List Rom) (w : Wired S) (l : Line S)
      → IsSame code all w l
      → IsSame code all (turns n code all w) (serve_all n all l)
  unfolding turns serve_all
  turns-IsSame zero code all w l s = s
  turns-IsSame (suc n) code all w l s =
      turns-IsSame n code all (turn code all w) (serve all l)
        (elim (is_done_or l.bus.search.phase) [
          | inl h ↦ ended-IsSame code all w l s h
          | inr h ↦ going-IsSame code all w l s h
        ])
