-- ===== src/Journal/Reader/Tests.antt =====
-- Runs of a reader of two journals, and the theorems at it.
use kungfu_cpp.Base.{ℕ, ◌≡◌, ◌≢◌, refl, arith, true, false, none, some, [], ◌∷◌}
use kungfu_cpp.Journal.Frame.{Frame, zeros}
use kungfu_cpp.Journal.Page.{put, store, ensure_header, blank}
use kungfu_cpp.Journal.Reader.{
  Channel, Reader, sort, choose, channel, location_of, channel_key, disjoin, disjoin_channel,
  data_available, limit_time,
}
use kungfu_cpp.Journal.Reader.Sorting.{Choice, sort-Choice}
use kungfu_cpp.Journal.Reader.Available.{data_available_lem}
use kungfu_cpp.Journal.Reader.Leaving.{channel-disjoin, channel-disjoin_channel}

abbrev stamped : ℕ → Frame
stamped time = record zeros { length = 36; header_length = 36; gen_time = time; msg_type = 101 }

abbrev channel_at : ℕ → ℕ → Channel
channel_at key time = record {
  key = key;
  size = 200;
  ids = 1 ∷ [];
  disk = store (λ k. none) 1 (put (ensure_header 200 blank) 24 (stamped time));
  cursor = record { page_id = some 1; address = 24; page_frame_nb = 0 };
}

abbrev two : Reader
two = record {
  lazy = true;
  live_mode = true;
  current = none;
  journals = channel_at (channel_key 5 0) 90 ∷ channel_at (channel_key 6 0) 70 ∷ [];
}

sort-two : (sort 10 two).current ≡ some (channel_key 6 0)
unfolding sort choose
sort-two = refl

-- Without live mode the clock hides both frames.
sort_hidden : (sort 10 (record two { live_mode = false })).current ≡ none
unfolding sort choose
sort_hidden = refl

sort-Choice_example : Choice (limit_time true 10) none two.journals (sort 10 two).current
sort-Choice_example = sort-Choice 10 two

data_available_lem_example : (data_available 10 two).0 ≡ true
data_available_lem_example =
    data_available_lem 10 two refl (((omega arith, tt)), (tt, tt)) (omega arith, (omega arith, tt))

channel-disjoin_example :
    (channel (channel_key 6 0) (disjoin 10 6 two).journals ≡ none)
    × ((disjoin 10 6 two).current ≡ some (channel_key 6 0) → location_of (channel_key 6 0) ≢ 6)
channel-disjoin_example = channel-disjoin 10 6 (channel_key 6 0) two

channel-disjoin_channel_example :
    channel (channel_key 6 0) (disjoin_channel 10 6 0 two).journals ≡ none
channel-disjoin_channel_example =
    channel-disjoin_channel 10 6 0 (channel_key 6 0) two (((omega arith, tt)), (tt, tt))
