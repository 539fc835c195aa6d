-- ===== src/Operations/Sound/Loaded.antt =====
-- What holds of the state that Load returns.

use agent_chun_su.Base.{◌≡◌, false, List, [], ◌∷◌, String}
use agent_chun_su.Store.Model.{ok}
use agent_chun_su.Incidents.{Tools, Json, Policy, SeverityRule}
use agent_chun_su.Incidents.Backed.{AllBacked}
use agent_chun_su.Incidents.Notices.Planned.{OwnKeys}
use agent_chun_su.Ledger.Records.{RecordStore, Outside}
use agent_chun_su.Ledger.{Scope, HistoryEntry, Limits, Codec, Held, load}
use agent_chun_su.Ledger.Loading.{load-keeps}
use agent_chun_su.Operations.{Book}
use agent_chun_su.Operations.Apply.{Payloads, apply}
use agent_chun_su.Operations.Releases.Lasting.{AllCycles}
use agent_chun_su.Operations.Sound.{Sound}
use agent_chun_su.Operations.Sound.Applied.{apply-Sound}

abbrev default_rule : String → SeverityRule
default_rule mode = record {
  mode = mode;
  recipients = [];
  cooldown_seconds = 0;
  acknowledgment_seconds = 0;
}

-- DefaultPolicy.
abbrev default_policy : Policy
default_policy = record {
  version = 1;
  rules =
      ("P0", default_rule "immediate")
      ∷ ("P1", default_rule "immediate")
      ∷ ("P2", default_rule "digest")
      ∷ ("P3", default_rule "none")
      ∷ [];
  source_freshness_seconds = 0;
  p0_bypasses_snooze = false;
}

-- emptyState.
abbrev pub empty_book : String → Book
empty_book scope = record {
  settings = record { timezone = ""; synthetic = false };
  ops = record {
    scope = scope;
    revision = 0;
    policy = default_policy;
    observations = [];
    incidents = [];
    notifications = [];
    assessments = [];
  };
  work_items = [];
  release_cycles = [];
}

empty_book-Sound : (t : Tools) (scope : String) → Sound t (empty_book scope)
unfolding AllBacked OwnKeys AllCycles
empty_book-Sound t scope = record {
  works = tt;
  cycles = tt;
  incidents = tt;
  own_keys = tt;
  entitled = tt;
}

-- Whatever the table and the files of the records hold, a state of a scope that Load returns is sound:
-- each work item is in one of the five states, has wait details exactly while it waits, evidence when it
-- is completed, and revisions that lead from its original due time to the current one; each release
-- cycle is ready before it is deployed, and each target that it carried is a commitment of the cycle
-- that it names, a later one for the same service and environment; each resolved incident has evidence;
-- all evidence is a statement that names no source or one that an observation has, with all its spans;
-- no two previews of notifications have the same key, and each that is planned has the mode and the
-- recipients of its policy.
pub load-Sound :
    (t : Tools) (j : Json) (p : Payloads) (o : Outside) (c : Codec) (lim : Limits) (scope : Scope)
    (key : String) (rs : RecordStore) (h : Held Book) (history : List HistoryEntry)
    → load (apply t j p) o c lim (empty_book key) scope rs ≡ ok (h, history)
    → Sound t h.contents
load-Sound t j p o c lim scope key rs h history loaded =
    load-keeps (apply t j p) o c lim (Sound t) (apply-Sound t j p) (empty_book key) scope rs h
      history loaded (empty_book-Sound t key)
