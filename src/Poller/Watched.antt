-- ===== src/Poller/Watched.antt =====
-- The table of the poller and the interest list of the kernel.
use flux_a_high_performance.Prelude.{
  ℕ, ◌≡◌, inl, inr, refl, ap, ◌∙◌, Bool, true, false, not, ◌&&◌, List, [], ◌∷◌, ◌==◌, arith,
  Bool-cases, some, ok,
}
use flux_a_high_performance.Poller.{
  has_fd, erase_fd, Poller, no_channels, Channel, epoll_ctl, update, has_channel, update_event,
  remove_event, find_fd, actives_of, poll, events_of, Call, updated, removed, after,
}

has_fd-erase_fd :
    (fd g : ℕ) (xs : List (ℕ × ℕ)) → has_fd fd (erase_fd g xs) ≡ (not (g == fd) && has_fd fd xs)
unfolding has_fd erase_fd
has_fd-erase_fd fd g [] = ground arith
has_fd-erase_fd fd g ((j, x) ∷ xs) = ground (arith, has_fd-erase_fd fd g xs)

-- Every descriptor of the table is watched.
abbrev pub Watched : Poller → Type 0
Watched p = (fd : ℕ) → has_fd fd p.channels ≡ true → has_fd fd p.interest ≡ true

abbrev pub Same : Poller → Type 0
Same p = (fd : ℕ) → has_fd fd p.channels ≡ has_fd fd p.interest

update_event-Watched :
    (accepts : Bool) (p : Poller) (c : Channel) → Watched p → Watched (update_event accepts p c).1
unfolding update_event update has_channel epoll_ctl has_fd
update_event-Watched accepts p c h fd =
    ground
      (arith, h fd, h c.fd, has_fd-erase_fd fd c.fd p.interest, has_fd-erase_fd fd c.fd p.channels)

remove_event-Watched :
    (accepts : Bool) (p : Poller) (c : Channel) → Watched p → Watched (remove_event accepts p c).1
unfolding remove_event update has_channel epoll_ctl
remove_event-Watched accepts p c h fd =
    ground
      (arith, h fd, h c.fd, has_fd-erase_fd fd c.fd p.interest, has_fd-erase_fd fd c.fd p.channels)

update_event-Same : (p : Poller) (c : Channel) → Same p → Same (update_event true p c).1
unfolding update_event update has_channel epoll_ctl has_fd
update_event-Same p c h fd = ground (arith, h fd, h c.fd, has_fd-erase_fd fd c.fd p.interest)

remove_event-Same : (p : Poller) (c : Channel) → Same p → Same (remove_event true p c).1
unfolding remove_event update has_channel epoll_ctl
remove_event-Same p c h fd =
    ground
      (arith, h fd, h c.fd, has_fd-erase_fd fd c.fd p.interest, has_fd-erase_fd fd c.fd p.channels)

abbrev pub all_accepted : List Call → Bool
all_accepted [] = true
all_accepted (updated accepts c ∷ calls) = accepts && all_accepted calls
all_accepted (removed accepts c ∷ calls) = accepts && all_accepted calls

after-Watched : (calls : List Call) (p : Poller) → Watched p → Watched (after p calls)
unfolding after
after-Watched [] p h = h
after-Watched (updated accepts c ∷ calls) p h =
    after-Watched calls _ (update_event-Watched accepts p c h)
after-Watched (removed accepts c ∷ calls) p h =
    after-Watched calls _ (remove_event-Watched accepts p c h)

after-Same :
    (calls : List Call) (p : Poller) → all_accepted calls ≡ true → Same p → Same (after p calls)
unfolding after
after-Same [] p a h = h
after-Same (updated true c ∷ calls) p a h = after-Same calls _ a (update_event-Same p c h)
after-Same (updated false c ∷ calls) p a h = absurd (cc a)
after-Same (removed true c ∷ calls) p a h = after-Same calls _ a (remove_event-Same p c h)
after-Same (removed false c ∷ calls) p a h = absurd (cc a)

-- The kernel gives events of watched descriptors only.
abbrev pub Known : List (ℕ × ℕ) → List (ℕ × ℕ) → Type 0
Known [] interest = Unit
Known ((fd, events) ∷ evs) interest = (has_fd fd interest ≡ true) × Known evs interest

abbrev pub events_in : List (ℕ × ℕ) → List ℕ
events_in [] = []
events_in ((x, events) ∷ evs) = events ∷ events_in evs

found : (fd : ℕ) (xs : List (ℕ × ℕ)) → has_fd fd xs ≡ true → (x : ℕ) × (find_fd fd xs ≡ some x)
unfolding has_fd find_fd
found fd [] h = absurd (cc h)
found fd ((j, x) ∷ xs) h = elim (Bool-cases (j == fd)) [
  | inl e ↦ (x, rw e refl)
  | inr e ↦ let (y, f) = found fd xs (simp e at h) in (y, rw (e, f) refl)
]

none_dropped :
    (evs : List (ℕ × ℕ)) (p : Poller)
    → Same p
    → Known evs p.interest
    → events_in (actives_of p evs) ≡ events_in evs
unfolding actives_of
none_dropped [] p s k = refl
none_dropped ((fd, events) ∷ evs) p s (h, k) =
    let (x, f) = found fd p.channels (s fd ∙ h) in
    rw (f, events_in) (ap (λ es. events ∷ es) (none_dropped evs p s k))

-- After any history of updates and removals, whichever of them the kernel refuses, the kernel watches every
-- descriptor of the table.
pub table_watched :
    (calls : List Call) (fd : ℕ)
    → has_fd fd (after no_channels calls).channels ≡ true
    → has_fd fd (after no_channels calls).interest ≡ true
table_watched calls fd h = after-Watched calls no_channels (λ fd h. h) fd h

-- After a history of updates and removals of which the kernel refuses none, the table has the same descriptors as the
-- kernel's interest list, and Poll drops none of the events that the kernel gives for them.
pub polls_all :
    (calls : List Call) (evs : List (ℕ × ℕ))
    → all_accepted calls ≡ true
    → Known evs (after no_channels calls).interest
    → Same (after no_channels calls)
      × ((actives : List (ℕ × ℕ)) × (poll (after no_channels calls) (events_of evs) ≡ ok actives)
          × (events_in actives ≡ events_in evs))
unfolding poll
polls_all calls evs a k =
    let p = after no_channels calls in
    let s = after-Same calls no_channels a (λ fd. refl) in
    (s, (actives_of p evs, refl, none_dropped evs p s k))
