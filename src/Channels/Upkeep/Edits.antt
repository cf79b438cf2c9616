-- ===== src/Channels/Upkeep/Edits.antt =====
-- The primary channel and the limit through deletions, subscriptions and settings
-- (src/trx-client/trx-frontend/trx-frontend-http/src/vchan.rs).
use trx_rs.Common.{
  ℕ, String, Option, none, some, List, ◌≡◌, ◌≢◌, refl, sym, ◌∙◌, inl, inr, arith, Bool-cases,
}
use trx_rs.Channels.Keys.{lookup}
use trx_rs.Channels.{
  InternalChannel, VChanAudioCmd, ClientChannelManager, is_fixed, broadcast_change, send, send_all,
  put, set_session, is_empty, release_session_on_rig,
}
use trx_rs.Channels.Edit.{
  find, change, take_out, join_session, enrolled, join_known, subscribe_session, deleted,
  delete_known, delete_channel, holder, destroyed, destroyed_in, destroyed_at, remove_by_uuid,
  edited, edit_known,
}
use trx_rs.Channels.Scheduler.{Desired, reconcile, synced_rig}
use trx_rs.Channels.Lists.{
  Leads, IsMild, change-Leads, change-length, take_out-Leads, take_out-length, find-found,
  found-is_fixed, reconcile-Leads, reconcile-length,
}
use trx_rs.Channels.Upkeep.Kept.{
  IsKept, put-Kept, size_of, led_of, send_all-Kept, forget-Kept, choose, forget_mapped-Kept,
  release_on_rig-Kept,
}

module _ (n : ℕ) (rig : String) (p : ℕ) where
  abbrev Kept : ClientChannelManager → Type 0
  Kept m = IsKept n rig p m

  -- an edit of a channel that is found, and one that takes it out
  pub changed-Kept :
      (r : String) (id : ℕ) (f : InternalChannel → InternalChannel) (cs : List InternalChannel)
      (m : ClientChannelManager)
      → IsMild f
      → lookup r m.rigs ≡ some cs
      → Kept m
      → Kept (put r (change id f cs) m)
  changed-Kept r id f cs m mild e h =
      put-Kept n rig p r (change id f cs) m (rw (change-length id f cs) (size_of n rig p r m e h))
        (λ same. change-Leads p id f cs mild (led_of n rig p r m e h same)) h

  pub cut-Kept :
      (r : String) (id : ℕ) (cs : List InternalChannel) (m : ClientChannelManager)
      → (Leads p cs → id ≢ p)
      → lookup r m.rigs ≡ some cs
      → Kept m
      → Kept (put r (take_out id cs) m)
  cut-Kept r id cs m ne e h =
      put-Kept n rig p r (take_out id cs) m
        (omega (arith, take_out-length id cs, size_of n rig p r m e h))
        (λ same. let l = led_of n rig p r m e h same in take_out-Leads p id cs (ne l) l) h

  pub enrolled-Kept :
      (s : ℕ) (r : String) (cs : List InternalChannel) (o : Option (ℕ × InternalChannel))
      (m : ClientChannelManager)
      → lookup r m.rigs ≡ some cs
      → Kept m
      → Kept (enrolled s r cs o m).1
  unfolding enrolled broadcast_change set_session
  enrolled-Kept s r cs none m e h = h
  enrolled-Kept s r cs (some (i, c)) m e h =
      changed-Kept r c.id (join_session s) cs m (λ d. (refl, refl, refl)) e h

  pub subscribe_session-Kept :
      (s : ℕ) (r : String) (id : ℕ) (m : ClientChannelManager)
      → Kept m
      → Kept (subscribe_session s r id m).1
  unfolding subscribe_session
  subscribe_session-Kept s r id m h = known (lookup r m'.rigs) refl
    where
      m' : ClientChannelManager
      m' = release_session_on_rig s r m

      known :
          (o : Option (List InternalChannel))
          → lookup r (release_session_on_rig s r m).rigs ≡ o
          → Kept (join_known s r id o (release_session_on_rig s r m)).1
      known none e = release_on_rig-Kept n rig p s r m h
      known (some cs) e =
          enrolled-Kept s r cs (find id cs) (release_session_on_rig s r m) e
            (release_on_rig-Kept n rig p s r m h)

  pub deleted-Kept :
      (r : String) (id : ℕ) (cs : List InternalChannel) (o : Option (ℕ × InternalChannel))
      (m : ClientChannelManager)
      → find id cs ≡ o
      → lookup r m.rigs ≡ some cs
      → Kept m
      → Kept (deleted r cs o m).1
  unfolding deleted broadcast_change send
  deleted-Kept r id cs none m q e h = h
  deleted-Kept r id cs (some (i, c)) m q e h = elim (Bool-cases (is_fixed c)) [
    | inl fixed ↦ rw fixed h
    | inr free ↦
        let cs' = take_out c.id cs in
        rw free (
          forget-Kept n rig p c.session_ids (broadcast_change r cs' (put r cs' m))
            (cut-Kept r c.id cs m (λ l. found-is_fixed p id i cs c l q free) e h))
  ]

  pub delete_channel-Kept :
      (r : String) (id : ℕ) (m : ClientChannelManager) → Kept m → Kept (delete_channel r id m).1
  unfolding delete_channel
  delete_channel-Kept r id m h = known (lookup r m.rigs) refl
    where
      known :
          (o : Option (List InternalChannel)) → lookup r m.rigs ≡ o → Kept (delete_known r id o m).1
      known none e = h
      known (some cs) e = deleted-Kept r id cs (find id cs) m refl e h

  pub edited-Kept :
      (r : String) (id : ℕ) (f : InternalChannel → InternalChannel) (cmd : ℕ → VChanAudioCmd)
      (m : ClientChannelManager)
      → IsMild f
      → Kept m
      → Kept (edit_known r id f cmd (lookup r m.rigs) m).1
  unfolding edit_known edited broadcast_change send
  edited-Kept r id f cmd m mild h = known (lookup r m.rigs) refl
    where
      found :
          (cs : List InternalChannel) (o : Option (ℕ × InternalChannel))
          → lookup r m.rigs ≡ some cs
          → Kept (edited r f cmd cs o m).1
      found cs none e = h
      found cs (some (i, c)) e = changed-Kept r c.id f cs m mild e h

      known :
          (o : Option (List InternalChannel))
          → lookup r m.rigs ≡ o
          → Kept (edit_known r id f cmd o m).1
      known none e = h
      known (some cs) e = found cs (find id cs) e

  pub synced_rig-Kept :
      (uuids : ℕ → ℕ) (r : String) (ds : List Desired) (o : Option (List InternalChannel))
      (m : ClientChannelManager)
      → lookup r m.rigs ≡ o
      → Kept m
      → Kept (synced_rig uuids r ds o m)
  unfolding synced_rig broadcast_change
  synced_rig-Kept uuids r ds none m e h = h
  synced_rig-Kept uuids r ds (some cs) m e h =
      let edit = reconcile m.max_channels uuids ds cs in
      let m' : ClientChannelManager = send_all r edit.1 (put r edit.0 m) in
      let good : Kept m' = send_all-Kept n rig p r edit.1 (put r edit.0 m) (
        put-Kept n rig p r edit.0 m
          (omega (
            arith,
            h.0,
            reconcile-length m.max_channels uuids ds cs
                (omega (arith, h.0, size_of n rig p r m e h)),
          ))
          (λ same. reconcile-Leads m.max_channels uuids p ds cs (led_of n rig p r m e h same)) h) in
      choose n rig p (is_empty edit.1) m' (broadcast_change r edit.0 m') good good

  pub remove_by_uuid-Kept :
      (id : ℕ) (m : ClientChannelManager) → id ≢ p → Kept m → Kept (remove_by_uuid id m)
  unfolding remove_by_uuid destroyed_at destroyed broadcast_change
  remove_by_uuid-Kept id m ne h = at (holder id m.rigs)
    where
      taken :
          (r : String) (cs : List InternalChannel) (o : Option (ℕ × InternalChannel))
          → find id cs ≡ o
          → lookup r m.rigs ≡ some cs
          → Kept (destroyed r cs o m)
      taken r cs none q e = h
      taken r cs (some (i, c)) q e =
          let cs' = take_out c.id cs in
          forget_mapped-Kept n rig p c.id c.session_ids (broadcast_change r cs' (put r cs' m))
            (cut-Kept r c.id cs m (λ l same. ne (sym (find-found id cs i c q) ∙ same)) e h)

      known :
          (r : String) (o : Option (List InternalChannel))
          → lookup r m.rigs ≡ o
          → Kept (destroyed_in r id o m)
      known r none e = h
      known r (some cs) e = taken r cs (find id cs) refl e

      at : (o : Option String) → Kept (destroyed_at id o m)
      at none = h
      at (some r) = known r (lookup r m.rigs) refl
