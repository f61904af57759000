-- ===== src/Observe/Apart.antt =====
-- The state files of cmd/syscert/observe.go touch no other file.
use syscert.Base.{◌≡◌, ◌≢◌, refl, ◌∙◌, Bool, true, false, ◌&&◌, List, [], ◌∷◌, if◌then◌else◌}
use syscert.Base.Int.{ℤ}
use syscert.Go.Strings.{Str, is_empty}
use syscert.Go.Filepath.{FilePath, resolve, in_dir}
use syscert.Os.{Result, ok, err, Sys, lookup}
use syscert.Os.Frames.{frame_read_file, frame_stat}
use syscert.Atomicfile.Names.{IsPlainPath}
use syscert.Atomicfile.Holds.{write-frame}
use syscert.Config.{Config, DistributeTarget}
use syscert.Renewal.{Parsers}
use syscert.Store.{cert_file}
use syscert.Store.Disk.{read_current_cert}
use syscert.Observe.{Snapshot, prometheus}
use syscert.Observe.Files.{
  observe_targets, gather_observation, write_observation, write_observations, ansible_facts,
}

-- The state files have no temporary name, and none of them is at `q`.
abbrev pub MissesOutputs : Config → FilePath → Type 0
MissesOutputs cfg q =
    IsPlainPath (resolve cfg.observe.metrics_file)
    × IsPlainPath (resolve cfg.observe.ansible_facts_file)
    × (q ≢ resolve cfg.observe.metrics_file)
    × (q ≢ resolve cfg.observe.ansible_facts_file)

module _ (q : FilePath) (plain : IsPlainPath q) where
  frame_observe_targets :
      (ts : List DistributeTarget) (s : Sys) → lookup q (observe_targets ts s).1.fs ≡ lookup q s.fs
  unfolding observe_targets
  frame_observe_targets [] s = refl
  frame_observe_targets (t ∷ ts) s = frame_observe_targets ts _ ∙ frame_stat q (resolve t.path) s

  frame_if :
      (b : Bool) (s x y : Sys)
      → lookup q x.fs ≡ lookup q s.fs
      → lookup q y.fs ≡ lookup q s.fs
      → lookup q (if b then x else y).fs ≡ lookup q s.fs
  frame_if true s x y h k = h
  frame_if false s x y h k = k

  module _ (g : Parsers) (version : Str) (marshal : Snapshot → Result Str) where
    frame_write_observation :
        (p : Str) (r : Result Str) (s : Sys)
        → IsPlainPath (resolve p)
        → q ≢ resolve p
        → lookup q (write_observation g version marshal p r s).fs ≡ lookup q s.fs
    unfolding write_observation
    frame_write_observation p (err e) s there ne = refl
    frame_write_observation p (ok content) s there ne =
        write-frame (resolve p) q content 0o644 s there plain ne

    -- The write where an output is set.
    frame_output :
        (p : Str) (r : Result Str) (s : Sys)
        → IsPlainPath (resolve p)
        → q ≢ resolve p
        → lookup q (if is_empty p then s else write_observation g version marshal p r s).fs
          ≡ lookup q s.fs
    frame_output p r s there ne =
        frame_if (is_empty p) s s (write_observation g version marshal p r s) refl
          (frame_write_observation p r s there ne)

    frame_gather_observation :
        (cfg : Config) (subject : Str) (now : ℤ) (s : Sys)
        → lookup q (gather_observation g version marshal cfg subject now s).1.fs ≡ lookup q s.fs
    unfolding gather_observation read_current_cert
    frame_gather_observation cfg subject now s =
        frame_observe_targets cfg.distribute _
        ∙ frame_read_file q (in_dir cfg.store.path cert_file) s

    -- Writing the state files leaves a file that is none of them as it was, whatever fails.
    pub frame_write_observations :
        (cfg : Config) (subject : Str) (now : ℤ) (s : Sys)
        → MissesOutputs cfg q
        → lookup q (write_observations g version marshal cfg subject now s).fs ≡ lookup q s.fs
    unfolding write_observations
    frame_write_observations cfg subject now s h =
        let (snap, t) = gather_observation g version marshal cfg subject now s in
        let put = write_observation g version marshal in
        let first =
          if is_empty cfg.observe.metrics_file
          then t
          else put cfg.observe.metrics_file (ok (prometheus snap)) t in
        let facts = ansible_facts g version marshal snap in
        frame_if (is_empty cfg.observe.metrics_file && is_empty cfg.observe.ansible_facts_file) s s
          (if is_empty cfg.observe.ansible_facts_file
            then first
            else put cfg.observe.ansible_facts_file facts first)
          refl
          (frame_output cfg.observe.ansible_facts_file facts first h.1 h.3
            ∙ (frame_output cfg.observe.metrics_file (ok (prometheus snap)) t h.0 h.2
                ∙ frame_gather_observation cfg subject now s))
