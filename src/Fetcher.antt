-- ===== src/Fetcher.antt =====
-- app/core/scraper/fetcher.py: the choice between the two tiers. What each tier answers (httpx and
-- Playwright) is a parameter.
pub mod Tier1
mod Tests
use truthpage.Prelude.{Bool, String, false, if◌then◌else◌, true}

-- `_fetch_tier1`: the page and whether it is bot-blocked, a connection error that escalates, or any
-- other exception.
pub data Tier1Reply : Type 0 where
  tier1_page : String → Bool → Tier1Reply
  connection_error tier1_raised : Tier1Reply

-- `_fetch_tier2`
pub data Tier2Reply : Type 0 where
  tier2_page : String → Tier2Reply
  tier2_raised : Tier2Reply

-- The page and whether `on_escalate` was called, an exception, or the time limit of the caller.
pub data Fetched : Type 0 where
  fetched : String → Bool → Fetched
  fetch_raised timed_out : Fetched

abbrev from_tier2 : Bool → Tier2Reply → Fetched
from_tier2 escalated (tier2_page html) = fetched html escalated
from_tier2 escalated tier2_raised = fetch_raised

unfoldable pub fetch_raw_html : Bool → Tier1Reply → Tier2Reply → Fetched
fetch_raw_html true tier1 tier2 = from_tier2 false tier2
fetch_raw_html false (tier1_page html blocked) tier2 =
    if blocked then from_tier2 true tier2 else fetched html false
fetch_raw_html false connection_error tier2 = from_tier2 true tier2
fetch_raw_html false tier1_raised tier2 = fetch_raised
