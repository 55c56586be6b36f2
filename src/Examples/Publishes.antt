-- ===== src/Examples/Publishes.antt =====
-- The theorems on the data directory at a first publish of two assets.
use itchgrep.Base.{ℕ, ◌+◌, true, false, none, some, List, [], ◌∷◌, refl}
use itchgrep.Base.Int.{pos}
use itchgrep.Base.Text.{text_lt}
use itchgrep.Models.Indexed.{IndexedAsset}
use itchgrep.Storage.{File, Indexes, Outcomes, Removal, publish_index}
use itchgrep.Storage.Swap.{Swapped, current, publish_index-Swapped}
use itchgrep.Fetcher.Slice.{pages_to_fetch}
use itchgrep.Crawl.Run.{Reply, fetch_batch}
use itchgrep.Crawl.Publish.{Disk, World, Settings, crawl_and_collect, fetch_and_store_assets}
use itchgrep.Crawl.Publish.Order.{
  Succeeded, Kept, fetch_and_store_assets-Succeeded, fetch_and_store_assets-Kept,
}
use itchgrep.Examples.{whole_floats, ascii, par_rates}
use itchgrep.Examples.Runs.{config, listing}

-- A swap that fails after the old index is set aside.
abbrev stuck : Outcomes ℕ
stuck = record {
  recover = true;
  clear = Removal.gone;
  set_aside = true;
  swap = false;
  restore = false;
  remove = Removal.gone;
}

abbrev two_indexes : Indexes ℕ
two_indexes = record { published = some 1; previous = none; staging = some 2 }

publish_index-Swapped_example : Swapped 2 (current two_indexes) (publish_index stuck two_indexes)
publish_index-Swapped_example = publish_index-Swapped stuck two_indexes 2 refl

abbrev crawl_log : File (List ℕ)
crawl_log = File.holds (5 ∷ 6 ∷ [])

abbrev empty_disk : Disk ascii whole_floats
empty_disk = record {
  assets = File.missing;
  tags = File.missing;
  first_seen = File.corrupt;
  rates = File.missing;
  stats = File.missing;
  history = File.missing;
  checkpoint = File.missing;
  index = record { published = none; previous = none; staging = none };
}

abbrev fine : Outcomes (List (IndexedAsset whole_floats))
fine = record {
  recover = true;
  clear = Removal.gone;
  set_aside = true;
  swap = true;
  restore = true;
  remove = Removal.gone;
}

-- Each view has two assets on its one page.
abbrev world : World ascii whole_floats
world = record {
  writable = true;
  asset_count = some 2;
  first_page = some 3;
  tag_age = 0;
  discovered = some [];
  put_tags = true;
  checkpoint_age = 0;
  answers = λ s start end.
      record { page = start; reply = Reply.listed listing }
      ∷ record { page = start + 1; reply = Reply.exhausted }
      ∷ [];
  checkpoint_left = File.missing;
  first_seen_aside = true;
  published_at = some (pos 90);
  rates = par_rates;
  build = true;
  staging_left = none;
  renames = fine;
  put_rates = true;
  put_assets = true;
  put_first_seen = true;
  put_stats = true;
  history_aside = true;
  put_history = true;
  completed_at = some (pos 91);
  delete_checkpoint = true;
}

abbrev settings : Settings ascii whole_floats
settings = record {
  crawl = config;
  coverage_floor = 1;
  tag_cache_max_age = 10;
  checkpoint_max_age = 10;
}

fetch_and_store_assets-Succeeded_example :
    Succeeded ascii whole_floats world settings empty_disk
      (crawl_and_collect ascii whole_floats world settings empty_disk).0
      (fetch_and_store_assets ascii whole_floats world settings empty_disk).0
unfolding fetch_and_store_assets pages_to_fetch fetch_batch text_lt
fetch_and_store_assets-Succeeded_example =
    fetch_and_store_assets-Succeeded ascii whole_floats world settings empty_disk refl

-- The site cannot be reached.
abbrev offline : World ascii whole_floats
offline = record world { asset_count = none }

fetch_and_store_assets-Kept_example :
    Kept ascii whole_floats offline empty_disk
      (fetch_and_store_assets ascii whole_floats offline settings empty_disk).0
unfolding fetch_and_store_assets
fetch_and_store_assets-Kept_example =
    fetch_and_store_assets-Kept ascii whole_floats offline settings empty_disk refl
