-- ===== src/Vochain/Censusdownloader.antt =====
-- vochain/censusdownloader/censusdownloader.go: the listener that asks for the census of a new
-- process. What it sends to the import queue of the census manager, on routines of its own, is its
-- result.
use go_dvote.Prelude.Fallible.{◌>>=◌}
use go_dvote.Census.{Remote}
use go_dvote.Db.{has_prefix}
use go_dvote.Util.Hex.{trim_hex}
use go_dvote.Prelude.{
  Bool, Bytes, List, Option, if◌then◌else◌, [], Res, panic, false, ok, not, ◌∷◌, some, ◌||◌, ◌++◌,
  length, insert, ◌==◌, leb,
}
use mathlib.Core.Option.{none}

-- CensusDownloader, without its pointers to the application and to the census manager.
pub record CensusDownloader : Type 0 where
  pub queue : List (Bytes × Bytes)
  pub import_only_new : Bool
  pub is_fast_sync : Bool

-- NewCensusDownloader
unfoldable pub new_census_downloader : Bool → CensusDownloader
new_census_downloader import_only_new = record {
  queue = [];
  import_only_new = import_only_new;
  is_fast_sync = false;
}

-- importCensus
unfoldable pub import_census : Option Remote → Bytes → Bytes → Res (List (Bytes × Bytes))
import_census none root uri = panic
import_census (some storage) root uri =
    if not (has_prefix storage.uri_prefix uri)
      || (length root == 0 || leb (length uri) (length storage.uri_prefix))
    then ok []
    else ok ((root, uri) ∷ [])

-- Rollback, at a node that synchronizes fast or not.
unfoldable pub rollback_queue : Bool → CensusDownloader → CensusDownloader
rollback_queue fast_sync c = record c { queue = []; is_fast_sync = fast_sync }

-- The loop of Commit.
unfoldable pub import_all : Option Remote → List (Bytes × Bytes) → Res (List (Bytes × Bytes))
unfolding import_census
import_all storage [] = ok []
import_all storage (e ∷ queue) = do
  sent ← import_census storage e.0 e.1
  more ← import_all storage queue
  ok (sent ++ more)

-- Commit, in the order of the association list; Go's order is arbitrary. The queue stays as it is.
unfoldable pub commit_queue : Option Remote → CensusDownloader → Res (List (Bytes × Bytes))
unfolding import_all
commit_queue storage c = import_all storage c.queue

-- OnProcess
unfoldable pub queue_process : Bytes → Bytes → CensusDownloader → CensusDownloader
queue_process mkroot mkuri c =
    if not c.import_only_new || not c.is_fast_sync
    then record c { queue = insert (trim_hex mkroot) mkuri c.queue }
    else c
