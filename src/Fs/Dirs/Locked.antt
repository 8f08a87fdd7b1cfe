-- ===== src/Fs/Dirs/Locked.antt =====
-- xv6/fs.c: `dirlink` of a name that the directory uses for itself, such as ".".
use tp2_ronaldo_joaopedro.Common.{
  ℕ, ◌+◌, ◌/◌, ◌<◌, true, false, some, List, ◌≡◌, refl, ap, ◌∙◌, inl, inr, arith, ◌==◌, ◌!=◌,
  ==_refl, update, Bool-cases,
}
use tp2_ronaldo_joaopedro.Fs.{Fs, ok, stop, pure, asleep}
use tp2_ronaldo_joaopedro.Fs.Room.{bind-ok, bind-stop}
use tp2_ronaldo_joaopedro.Fs.Inodes.{iget, has_inode, acquire_lock}
use tp2_ronaldo_joaopedro.Fs.Inodes.Cache.{IsUnique, Iget, iget-IsUnique}
use tp2_ronaldo_joaopedro.Fs.Contents.{iput, put_locked}
use tp2_ronaldo_joaopedro.Fs.Dirs.{lookup_from, get_found, dirlookup, link_found, dirlink}

iput-asleep : (j : ℕ) (s : Fs) → (s.inodes j).locked ≡ true → iput j s ≡ stop asleep
unfolding iput
iput-asleep j s h = bind-stop (acquire_lock j) (λ _. put_locked j) s (rw h refl)

-- The own entry of a directory that is in use is found in its own slot.
own_slot :
    (i : ℕ) (s : Fs)
    → IsUnique s.inodes
    → i < 50
    → 0 < (s.inodes i).ref
    → (s.inodes i).locked ≡ true
    → (s' : Fs) × (iget (s.inodes i).dev (s.inodes i).inum s ≡ ok i s')
      × ((s'.inodes i).locked ≡ true)
own_slot i s u lt used held = by_result (iget-IsUnique (s.inodes i).dev (s.inodes i).inum s u)
  where
    mine : has_inode (s.inodes i).dev (s.inodes i).inum (s.inodes i) ≡ true
    mine = ground (arith, used)

    by_result :
        Iget (s.inodes i).dev (s.inodes i).inum s (iget (s.inodes i).dev (s.inodes i).inum s)
        → (s' : Fs) × (iget (s.inodes i).dev (s.inodes i).inum s ≡ ok i s')
          × ((s'.inodes i).locked ≡ true)
    by_result (inl (full, busy, nobody)) = absurd (ground (arith, nobody i lt, mine))
    by_result (inr (j, ip, is, lt', has, more, lock, was, unique)) = elim (Bool-cases (j == i)) [
      | inl same ↦
          let e : j ≡ i = ground (arith, same) in
          (
            record s { inodes = update s.inodes j ip },
            is ∙ ap (λ x. ok x (record s { inodes = update s.inodes j ip })) e,
            rw same (lock ∙ ap (λ x. (s.inodes x).locked) e ∙ held),
          )
      | inr other ↦
          let e : j ≡ i =
            unique (s.inodes i).dev (s.inodes i).inum j i lt' lt (rw (==_refl j) has)
              (rw other mine) in
          absurd (ground (arith, other, e))
    ]

dirlookup-found :
    (i off inum j : ℕ) (name : List ℕ) (s s' : Fs)
    → (s.inodes i).type ≡ 1
    → lookup_from ((s.inodes i).size / 16 + 2) i name 0 s ≡ ok (some (inum, off)) s
    → iget (s.inodes i).dev inum s ≡ ok j s'
    → dirlookup i name s ≡ ok (some (j, off)) s'
unfolding dirlookup
dirlookup-found i off inum j name s s' dir found e =
    let is_dir : ((s.inodes i).type != 1) ≡ false = ground (arith, dir) in
    rw is_dir (
      bind-ok (lookup_from ((s.inodes i).size / 16 + 2) i name 0) (get_found (s.inodes i).dev) s
        found (bind-ok (iget (s.inodes i).dev inum) (λ j. pure (some (j, off))) s e refl))

-- dirlink into a locked directory that is in use, for a name under which the directory has itself as
-- an entry, never comes back: iput of the inode found waits for the lock that the caller holds.
pub dirlink_asleep :
    (i inum off : ℕ) (name : List ℕ) (s : Fs)
    → IsUnique s.inodes
    → i < 50
    → 0 < (s.inodes i).ref
    → (s.inodes i).locked ≡ true
    → (s.inodes i).type ≡ 1
    → lookup_from ((s.inodes i).size / 16 + 2) i name 0 s ≡ ok (some ((s.inodes i).inum, off)) s
    → dirlink i name inum s ≡ stop asleep
unfolding dirlink link_found
dirlink_asleep i inum off name s u lt used held dir found =
    let (s', e, held') = own_slot i s u lt used held in
    bind-ok (dirlookup i name) (link_found i name inum) s (looked_up s' e)
      (bind-stop (iput i) (λ _. pure false) s' (iput-asleep i s' held'))
  where
    looked_up :
        (s' : Fs)
        → iget (s.inodes i).dev (s.inodes i).inum s ≡ ok i s'
        → dirlookup i name s ≡ ok (some (i, off)) s'
    looked_up s' e = dirlookup-found i off (s.inodes i).inum i name s s' dir found e
