-- ===== src/Trigger/Blocks.antt =====
-- `process_blocks` of trigger.rs: what the block schedulers' reports become.
use wavs.Prelude.{
  ℕ, ◌<◌, ◌≡◌, sym, subst, true, false, some, List, map, ◌==◌, nat_eq, if◌then◌else◌, arith, ◌↔◌,
  retain,
}
use wavs.Prelude.Map.{get, insert, get-insert}
use wavs.Types.Chain.{ChainKey, chain_key_eq}
use wavs.Types.Service.{TriggerConfig}
use wavs.Types.TriggerData.{TriggerData}
use wavs.Scheduler.Interval.{LookupId, tick}
use wavs.Scheduler.Exact.{at_tick, ids}
use wavs.Scheduler.Block.{BlockScheduler, block_interval_state}
use wavs.Scheduler.BlockFiring.{block_laws, IsReady, tick-block_reports}
use wavs.Scheduler.BlockPlan.{fires, InTime}
use wavs.Scheduler.Cron.{CronCrate}
use wavs.Services.Store.{Services}
use wavs.Lookup.Maps.{BiMapCrate, LookupMaps}
use wavs.Lookup.Entries.{has}
use wavs.Lookup.Configs.{In, IsLive, get_trigger_configs, get_trigger_configs-In}
use wavs.Trigger.Events.{action_of, process_blocks}
use wavs.Trigger.Fired.{actions-In}

-- The ids of a scheduler's triggers that are due at a height.
abbrev pub due_ids : ℕ → BlockScheduler → List LookupId
due_ids height sch =
    map (λ s. s.lookup_id)
      (retain (fires height) (at_tick block_interval_state block_laws height sch))

module _ (C : CronCrate) (B : BiMapCrate) where
  -- At a positive height with room for 2^32 more, for a chain with a scheduler that is ready:
  -- `process_blocks` fires, with the chain and the height, exactly the configs of active services that
  -- stand behind the ids due at that height; it leaves the chain's scheduler ready for any later height,
  -- and the schedulers of the other chains as they were.
  pub process_blocks-fires :
      (l : LookupMaps C B) (services : Services) (chain : ChainKey) (height later : ℕ)
      (sch : BlockScheduler)
      → get l.block_schedulers chain ≡ some sch
      → InTime height
      → IsReady height sch
      → height < later
      → let (l', commands) = process_blocks C B l services chain height in
        ((c : TriggerConfig)
          → In (action_of (TriggerData.block_interval chain height) c) commands ↔ (
              (id : LookupId) × (has id (due_ids height sch) ≡ true)
              × IsLive l.trigger_configs services id c))
        × ((sch' : BlockScheduler) × IsReady later sch'
            × ((other : ChainKey)
                → get l'.block_schedulers other
                  ≡ (if chain == other then some sch' else get l.block_schedulers other)))
  unfolding process_blocks
  process_blocks-fires l services chain height later sch e i r lt =
      let out = tick block_interval_state sch height in
      let reports = tick-block_reports height later sch i r lt in
      let l1 : LookupMaps C B = record l {
        block_schedulers = insert chain out.0 l.block_schedulers;
      } in
      let not_zero : (height == 0) ≡ false = ground arith in
      let d = TriggerData.block_interval chain height in
      rw (not_zero, e)
        (
          λ c.
              let inner = get_trigger_configs-In C B l1 services (ids out.1) c in
              let outer = actions-In d c (get_trigger_configs C B l1 services (ids out.1)) in
              (
                λ h.
                    let b = inner.0 (outer.0 h) in
                    (b.0, subst (λ x. has b.0 x ≡ true) reports.0 b.1, b.2),
                λ b.
                    outer.1 (inner.1 (b.0, subst (λ x. has b.0 x ≡ true) (sym reports.0) b.1, b.2)),
              ),
          (out.0, reports.1, λ other. get-insert chain other out.0 l.block_schedulers),
        )
