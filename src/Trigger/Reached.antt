-- ===== src/Trigger/Reached.antt =====
-- The states of the lookup maps that the operations of lookup.rs and the ticks of the schedulers reach
-- from the empty maps.
use wavs.Prelude.{
  ℕ, ◌≡◌, refl, sym, ap, ◌∙◌, subst, ◌+◌, ◌<◌, length, Option, none, some, List, if-both, ◌==◌,
  nat_eq, arith,
}
use wavs.Prelude.Map.{get, get-insert}
use wavs.Types.Chain.{ChainKey, chain_key_eq}
use wavs.Types.Service.{ServiceId, WorkflowId, Service}
use wavs.Scheduler.Interval.{tick}
use wavs.Scheduler.Block.{BlockScheduler, u64_mod, block_interval_state}
use wavs.Scheduler.Cron.{CronCrate}
use wavs.Services.Store.{Services}
use wavs.Lookup.Maps.{
  BiMapCrate, LookupMaps, new_maps, add_service, remove_workflow, remove_service,
}
use wavs.Lookup.Keys.{IndexKey, evm, cosmos, exact, pattern_of, feed, blocks, clock, ids_at}
use wavs.Lookup.Entries.{has}
use wavs.Lookup.Indexed.{IsIndexed, files, new_maps-IsIndexed, remove_workflow-IsIndexed}
use wavs.Lookup.IndexedAdd.{add_service-IsIndexed}
use wavs.Lookup.IndexedRemove.{remove_service-IsIndexed}
use wavs.Lookup.Patterns.{Once, Once-add_service, Once-remove_workflow, Once-remove_service}
use wavs.Trigger.Events.{DispatcherCommand, process_blocks, scheduler_ticked}
use wavs.Trigger.CronStream.{cron_tick}

module _ (C : CronCrate) (B : BiMapCrate) where
  -- One operation, failed or not; the id counter has room for the workflows of an added service.
  pub data Step : LookupMaps C B → LookupMaps C B → Type 0 where
    added :
        (l l' : LookupMaps C B) (sid : ServiceId) (service : Service)
        → l.lookup_id + length service.workflows < u64_mod
        → l' ≡ (add_service C B l sid service).0
        → Step l l'
    workflow_removed :
        (l l' : LookupMaps C B) (sid : ServiceId) (wid : WorkflowId)
        → l' ≡ (remove_workflow C B l sid wid).0
        → Step l l'
    service_removed :
        (l l' : LookupMaps C B) (sid : ServiceId) → l' ≡ remove_service C B l sid → Step l l'
    block_seen :
        (l l' : LookupMaps C B) (services : Services) (chain : ChainKey) (height : ℕ)
        → l' ≡ (process_blocks C B l services chain height).0
        → Step l l'
    clock_ticked : (l l' : LookupMaps C B) (now : ℕ) → l' ≡ (cron_tick C B l now).0 → Step l l'

  pub data Reached : LookupMaps C B → Type 0 where
    empty : (l : LookupMaps C B) → l ≡ new_maps C B → Reached l
    next : (l l' : LookupMaps C B) → Reached l → Step l l' → Reached l'

  -- A tick keeps the ids of its scheduler.
  cron_ticked-ids :
      (l : LookupMaps C B) (now : ℕ) (k : IndexKey)
      → ids_at C B (cron_tick C B l now).0 k ≡ ids_at C B l k
  unfolding cron_tick tick
  cron_ticked-ids l now clock = refl
  cron_ticked-ids l now (evm k) = refl
  cron_ticked-ids l now (cosmos k) = refl
  cron_ticked-ids l now (exact k) = refl
  cron_ticked-ids l now (pattern_of k) = refl
  cron_ticked-ids l now (feed k) = refl
  cron_ticked-ids l now (blocks k) = refl

  chain_ticked-ids :
      (l : LookupMaps C B) (chain : ChainKey) (height : ℕ) (o : Option BlockScheduler)
      → get l.block_schedulers chain ≡ o
      → (k : IndexKey) → ids_at C B (scheduler_ticked C B l chain height o).0 k ≡ ids_at C B l k
  unfolding tick
  chain_ticked-ids l chain height none e k = refl
  chain_ticked-ids l chain height (some sch) e (blocks k) =
      ground (arith, get-insert chain k (tick block_interval_state sch height).0 l.block_schedulers)
  chain_ticked-ids l chain height (some sch) e clock = refl
  chain_ticked-ids l chain height (some sch) e (evm k) = refl
  chain_ticked-ids l chain height (some sch) e (cosmos k) = refl
  chain_ticked-ids l chain height (some sch) e (exact k) = refl
  chain_ticked-ids l chain height (some sch) e (pattern_of k) = refl
  chain_ticked-ids l chain height (some sch) e (feed k) = refl

  -- Ticks change the schedulers only.
  ticked-IsIndexed :
      (l l' : LookupMaps C B)
      → ((k : IndexKey) → ids_at C B l' k ≡ ids_at C B l k)
      → l'.trigger_configs ≡ l.trigger_configs
      → l'.lookup_id ≡ l.lookup_id
      → IsIndexed C B l
      → IsIndexed C B l'
  ticked-IsIndexed l l' same configs counter w = record {
    filed =
        λ k id. ap (has id) (same k) ∙ w.filed k id ∙ ap (λ m. files (get m id) k) (sym configs);
    below = λ id c e.
        subst (λ n. id < n) (sym counter) (w.below id c (ap (λ m. get m id) (sym configs) ∙ e));
  }

  chain_ticked :
      (l : LookupMaps C B) (chain : ChainKey) (height : ℕ) (o : Option BlockScheduler)
      → get l.block_schedulers chain ≡ o
      → IsIndexed C B l
      → Once C B l
      → IsIndexed C B (scheduler_ticked C B l chain height o).0
        × Once C B (scheduler_ticked C B l chain height o).0
  chain_ticked l chain height none e w d = (w, d)
  chain_ticked l chain height (some sch) e w d = (
    ticked-IsIndexed l (scheduler_ticked C B l chain height (some sch)).0
        (chain_ticked-ids l chain height (some sch) e) refl refl w,
    d,
  )

  abbrev IsKept : LookupMaps C B → Type 0
  IsKept l = IsIndexed C B l × Once C B l

  Step-IsKept : (l l' : LookupMaps C B) → Step l l' → IsKept l → IsKept l'
  unfolding process_blocks
  Step-IsKept _ _ (added l l' sid service room e) (w, d) =
      subst IsKept (sym e)
        (add_service-IsIndexed C B l sid service w room, Once-add_service C B l sid service d)
  Step-IsKept _ _ (workflow_removed l l' sid wid e) (w, d) =
      subst IsKept (sym e)
        (remove_workflow-IsIndexed C B l sid wid w, Once-remove_workflow C B l sid wid d)
  Step-IsKept _ _ (service_removed l l' sid e) (w, d) =
      subst IsKept (sym e)
        ((remove_service-IsIndexed C B l sid w).0, Once-remove_service C B l sid d)
  Step-IsKept _ _ (block_seen l l' services chain height e) (w, d) = subst IsKept (sym e) (
      if-both (λ (out : LookupMaps C B × List DispatcherCommand). IsKept out.0) (height == 0) _ _
        (w, d) (chain_ticked l chain height (get l.block_schedulers chain) refl w d))
  Step-IsKept _ _ (clock_ticked l l' now e) (w, d) = subst IsKept (sym e) (
    ticked-IsIndexed l (cron_tick C B l now).0 (cron_ticked-ids l now) (unfold cron_tick in refl)
        (unfold cron_tick in refl) w,
    unfold cron_tick in d,
  )

  -- In every state that the operations of lookup.rs and the ticks of the schedulers reach from the
  -- empty maps, failed or not, while the id counter has room, the indexes agree with the configs and
  -- each pattern stands once.
  pub Reached-IsIndexed : (l : LookupMaps C B) → Reached l → IsIndexed C B l × Once C B l
  unfolding new_maps
  Reached-IsIndexed _ (empty l e) = subst IsKept (sym e) (new_maps-IsIndexed C B, tt)
  Reached-IsIndexed _ (next l0 l r s) = Step-IsKept l0 l s (Reached-IsIndexed l0 r)
