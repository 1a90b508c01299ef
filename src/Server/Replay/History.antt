-- ===== src/Server/Replay/History.antt =====
-- The replay of what the writer logged gives what the writer made of the records.
use gapdb.Prelude.{ℕ, suc, List, [], ◌∷◌, ◌≡◌, refl, ap, ◌∙◌}
use gapdb.Api.Types.{Mutation, MutationKind}
use gapdb.Persist.Frames.{CommitFrame}
use gapdb.Engine.State.{SingleOperation}
use gapdb.Engine.Apply.{effect_for, effects_for, apply, apply_all}
use gapdb.Server.Replay.{Records, replay_effects, replay_commits}

-- A batch that was committed.
pub record CommittedBatch : Type 0 where
  pub revision : ℕ
  pub mutations : List Mutation
  pub single : SingleOperation

-- The frame that `commit` logs for a batch.
abbrev pub frame_of : CommittedBatch → CommitFrame
frame_of b = record { revision = b.revision; effects = effects_for b.mutations b.single }

abbrev pub frames_of : List CommittedBatch → List CommitFrame
frames_of [] = []
frames_of (b ∷ rest) = frame_of b ∷ frames_of rest

-- The records after the batches, as `commit` applies them.
unfoldable pub records_after : List CommittedBatch → Records → Records
records_after [] records = records
records_after (b ∷ rest) records =
    records_after rest (apply_all b.revision 0 b.mutations b.single records).0

replay_effect-apply :
    (kind : MutationKind) (revision order : ℕ) (m : Mutation) (single : SingleOperation)
    (records : Records)
    → m.kind ≡ kind
    → replay_effects revision (effect_for m single ∷ []) records
      ≡ (apply revision order m single records).0
unfolding replay_effects effect_for apply
replay_effect-apply MutationKind.put revision order m single records k = rw k
replay_effect-apply MutationKind.delete revision order m SingleOperation.batch records k = rw k
replay_effect-apply MutationKind.delete revision order m SingleOperation.put records k = rw k
replay_effect-apply MutationKind.delete revision order m SingleOperation.put_if_absent records k =
    rw k
replay_effect-apply MutationKind.delete revision order m SingleOperation.compare_and_swap records
      k =
    rw k
replay_effect-apply MutationKind.delete revision order m SingleOperation.delete_if_revision records
      k =
    rw k
replay_effect-apply MutationKind.delete revision order m SingleOperation.expiry records k = rw k
replay_effect-apply MutationKind.unknown revision order m single records k = rw k

replay_effects-apply_all :
    (revision order : ℕ) (ms : List Mutation) (single : SingleOperation) (records : Records)
    → replay_effects revision (effects_for ms single) records
      ≡ (apply_all revision order ms single records).0
unfolding replay_effects effects_for apply_all
replay_effects-apply_all revision order [] single records = refl
replay_effects-apply_all revision order (m ∷ rest) single records =
    ap (replay_effects revision (effects_for rest single))
      (replay_effect-apply m.kind revision order m single records refl)
    ∙ replay_effects-apply_all revision (suc order) rest single
        (apply revision order m single records).0

-- Replaying the frames that the writer logs for a list of batches gives the records that the
-- writer leaves when it applies these batches.
pub replay_commits-records_after :
    (bs : List CommittedBatch) (records : Records)
    → replay_commits (frames_of bs) records ≡ records_after bs records
unfolding replay_commits records_after
replay_commits-records_after [] records = refl
replay_commits-records_after (b ∷ rest) records =
    ap (replay_commits (frames_of rest))
      (replay_effects-apply_all b.revision 0 b.mutations b.single records)
    ∙ replay_commits-records_after rest (apply_all b.revision 0 b.mutations b.single records).0
