-- ===== src/Distribute/Progress.antt =====
-- A run of internal/distribute/distribute.go whose targets can all be served succeeds.
use syscert.Base.{◌≡◌, ◌≢◌, sym, ap, subst, ◌∙◌, List, [], ◌∷◌, All}
use syscert.Go.Strings.{Str}
use syscert.Go.Filepath.{resolve, in_dir}
use syscert.Os.{ok, Meta, Host, Sys}
use syscert.Atomicfile.Returns.{IsClear, Placed, Placed-CanPlace}
use syscert.Config.{DistributeTarget}
use syscert.Store.{artifact_names}
use syscert.Distribute.{one, run}
use syscert.Distribute.Delivery.{Visits, run-ok_iff}
use syscert.Distribute.Targets.{AreTargets, Received, run-Received, artifact_file-All}
use syscert.Distribute.Served.{CanServe, one-returns}

-- A file that is put at another path leaves a target as servable as it was.
Placed-CanServe :
    (d : Str) (h : Host) (t u : DistributeTarget) (s v : Sys) (content : Str) (m : Meta)
    → Placed (resolve t.path) content m s v
    → CanServe d h s t
    → All (λ name. resolve t.path ≢ in_dir d name) artifact_names
    → resolve t.path ≢ resolve u.path
    → CanServe d h s u
    → CanServe d h v u
Placed-CanServe d h t u s v content m placed can apart ne other = record {
  usable = other.usable;
  content = other.content;
  meta = other.meta;
  found =
      placed.same (in_dir d other.usable.name) (λ e.
        artifact_file-All (λ x. resolve t.path ≢ in_dir d x) u.artifact other.usable.name apart
          other.usable.named (sym e))
      ∙ other.found;
  place =
      Placed-CanPlace (resolve t.path) content m s v placed (resolve u.path) can.place.over
        (λ e. ne (sym e)) other.place;
}

module _ (d : Str) (h : Host) where
  still_servable :
      (t : DistributeTarget) (ts : List DistributeTarget) (s v : Sys) (content : Str) (m : Meta)
      → Placed (resolve t.path) content m s v
      → CanServe d h s t
      → All (λ name. resolve t.path ≢ in_dir d name) artifact_names
      → All (λ u. resolve t.path ≢ resolve u.path) ts
      → All (CanServe d h s) ts
      → All (CanServe d h v) ts
  still_servable t [] s v content m placed can apart ne all = tt
  still_servable t (u ∷ ts) s v content m placed can apart ne all = (
    Placed-CanServe d h t u s v content m placed can apart ne.0 all.0,
    still_servable t ts s v content m placed can apart ne.1 all.1,
  )

  visits :
      (ts : List DistributeTarget) (s : Sys)
      → IsClear h s
      → AreTargets d ts
      → All (CanServe d h s) ts
      → Visits d (λ t u. (one d t u).0 ≡ ok tt) ts s
  visits [] s clear apart all = tt
  visits (t ∷ ts) s clear apart all =
      let (v, served, arrived) = one-returns d h s t clear all.0 in
      (
        ap (λ r. r.0) served,
        subst (λ x. Visits d (λ t u. (one d t u).0 ≡ ok tt) ts x) (sym (ap (λ r. r.1) served))
            (visits ts v arrived.clear apart.3 (
              still_servable t ts s v all.0.content arrived.owner arrived.placed all.0 apart.1
                apart.2 all.1)),
      )

  pub run-succeeds :
      (ts : List DistributeTarget) (s : Sys)
      → IsClear h s
      → AreTargets d ts
      → All (CanServe d h s) ts
      → (run d ts s).0 ≡ ok tt
  run-succeeds ts s clear apart all = (run-ok_iff d ts s).1 (visits ts s clear apart all)

-- If the environment lets all calls through, no file has the name of a temporary one, the targets do
-- not meet, and each can be served (the store has its artifact, its mode, owner and group can be
-- read, its directory is there and its path is no directory), then the run succeeds, and every target
-- has the content that the store had for its artifact, under its mode.
pub run-delivers :
    (d : Str) (ts : List DistributeTarget) (s : Sys)
    → IsClear s.host s
    → AreTargets d ts
    → All (CanServe d s.host s) ts
    → ((run d ts s).0 ≡ ok tt) × All (Received d s (run d ts s).1) ts
run-delivers d ts s clear apart all =
    let done = run-succeeds d s.host ts s clear apart all in (done, run-Received d ts s apart done)
