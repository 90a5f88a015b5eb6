-- ===== src/Files/Map/Longer.antt =====
-- kernel/fatfs.c, `map_cluster` for writing: what it leaves of a chain, put together from its rounds.
use burdah_dos_system.Base.{
  ℕ, ◌+◌, ◌≤◌, ◌≡◌, ◌≢◌, ◌⊎◌, refl, sym, ap, ◌∙◌, subst, inl, inr, arith, List, [], ◌∷◌, ◌++◌, some,
  length, get_elem?, append-nil, append_assoc, length-append,
}
use burdah_dos_system.Fat.Entry.{free}
use burdah_dos_system.Fat.Link.{Volume, max_cluster}
use burdah_dos_system.Files.{Fnode}
use burdah_dos_system.Files.Chain.{IsChain, Apart, same-IsChain}
use burdah_dos_system.Files.Chain.Grow.{Ends, Links-Apart}
use burdah_dos_system.Files.Table.{entry, Table}
use burdah_dos_system.Files.Table.Steps.{IsDrive, Alike}
use burdah_dos_system.Files.Map.{Status, success, de_hndldskfull, Answer}
use burdah_dos_system.Files.Map.Extend.{Extended}
use burdah_dos_system.Files.Map.Seek.{Moved}

-- All of the clusters are free.
abbrev pub AllFree : (ℕ → ℕ) → List ℕ → Type 0
AllFree e [] = Unit
AllFree e (n ∷ ns) = (e n ≡ free) × AllFree e ns

AllFree-map :
    (e f : ℕ → ℕ) (ns : List ℕ) → ((d : ℕ) → f d ≡ free → e d ≡ free) → AllFree f ns → AllFree e ns
AllFree-map e f [] back all = tt
AllFree-map e f (n ∷ ns) back all = (back n all.0, AllFree-map e f ns back all.1)

pub Ends-append : (l : ℕ) (pre : List ℕ) → Ends l (pre ++ (l ∷ []))
Ends-append l [] = refl
Ends-append l (x ∷ []) = refl
Ends-append l (x ∷ (y ∷ ys)) = Ends-append l (y ∷ ys)

Moved-trans : (f g h : Fnode) → Moved f g → Moved g h → Moved f h
Moved-trans f g h m k =
    k
    ∙ ap
        (λ (x : Fnode). record x { f_cluster = h.f_cluster; f_cluster_offset = h.f_cluster_offset })
        m

module _ (T : Table) where
  -- What `map_cluster` leaves of a chain `cs` that it needs at position `place`: the chain with
  -- clusters behind it that were free, no more than needed.
  pub record Longer (v : Volume) (start : ℕ) (cs : List ℕ) (place : ℕ) (ns : List ℕ) (w : Volume)
      : Type 0 where
    pub drive : IsDrive T w
    pub top : max_cluster w.dpb ≡ max_cluster v.dpb
    pub chain : IsChain (entry w) (max_cluster w.dpb) start (cs ++ ns)
    pub were_free : AllFree (entry v) ns
    pub others : (d : ℕ) → Apart d (cs ++ ns) → entry w d ≡ entry v d
    pub needed : (ns ≡ []) ⊎ (length (cs ++ ns) ≤ place + 1)

  -- The answer: the file is at the position, or no cluster is free any more.
  abbrev pub Reached : List ℕ → ℕ → Status → Fnode → Volume → Type 0
  Reached cs place s f w =
      ((s ≡ success) × (get_elem? cs place ≡ some f.f_cluster) × (f.f_cluster_offset ≡ place))
      ⊎ ((s ≡ de_hndldskfull) × ((c : ℕ) → 2 ≤ c → c ≤ max_cluster w.dpb → entry w c ≢ free))

  Alike-Longer :
      (u v w : Volume) (start : ℕ) (cs : List ℕ) (place : ℕ) (ns : List ℕ)
      → Alike T u v
      → Longer v start cs place ns w
      → Longer u start cs place ns w
  Alike-Longer u v w start cs place ns a l = record {
    drive = l.drive;
    top = l.top ∙ a.top;
    chain = l.chain;
    were_free = AllFree-map (entry u) (entry v) ns (λ d e. sym (a.entries d) ∙ e) l.were_free;
    others = λ d out. l.others d out ∙ a.entries d;
    needed = l.needed;
  }

  Apart-more : (d : ℕ) (cs ns : List ℕ) → Apart d (cs ++ ns) → Apart d cs
  Apart-more d [] ns out = tt
  Apart-more d (c ∷ cs) ns out = (out.0, Apart-more d cs ns out.1)

  Extended-Longer :
      (u v w : Volume) (start n : ℕ) (cs : List ℕ) (place : ℕ) (ns : List ℕ)
      → length cs ≤ place
      → Extended T u cs start n v
      → Longer v start (cs ++ (n ∷ [])) place ns w
      → Longer u start cs place (n ∷ ns) w
  Extended-Longer u v w start n cs place ns short x l =
      let e : (cs ++ (n ∷ [])) ++ ns ≡ cs ++ (n ∷ ns) = append_assoc cs (n ∷ []) ns in
      record {
        drive = l.drive;
        top = l.top ∙ x.top;
        chain = subst (IsChain (entry w) (max_cluster w.dpb) start) e l.chain;
        were_free = (
          x.was_free,
          AllFree-map (entry u) (entry v) ns
              (λ d is_free.
                sym (
                  x.others d (
                    Links-Apart (entry v) (max_cluster v.dpb) start d (cs ++ (n ∷ [])) x.chain.links
                      x.chain.inside is_free))
                ∙ is_free)
              l.were_free,
        );
        others = λ d out.
            let all = subst (Apart d) (sym e) out in
            l.others d all ∙ x.others d (Apart-more d (cs ++ (n ∷ [])) ns all);
        needed = elim l.needed [
          | inl none_more ↦
              inr (omega (arith, short, length-append cs (n ∷ ns), ap length none_more))
          | inr few ↦ inr (subst (λ k. length k ≤ place + 1) e few)
        ];
      }

  -- An answer of `map_cluster` of the file `fnp` with the clusters `cs`, for position `place`.
  pub record Mapped (v : Volume) (start : ℕ) (cs : List ℕ) (place : ℕ) (fnp : Fnode) (a : Answer)
      : Type 0 where
    pub status : Status
    pub file : Fnode
    pub volume : Volume
    pub added : List ℕ
    pub returned : a ≡ some (status, file, volume)
    pub reached : Reached (cs ++ added) place status file volume
    pub moved : Moved fnp file
    pub longer : Longer v start cs place added volume

  pub here-Mapped :
      (v : Volume) (start place : ℕ) (cs : List ℕ) (fnp : Fnode)
      → IsDrive T v
      → IsChain (entry v) (max_cluster v.dpb) start cs
      → get_elem? cs place ≡ some fnp.f_cluster
      → fnp.f_cluster_offset ≡ place
      → Mapped v start cs place fnp (some (success, fnp, v))
  here-Mapped v start place cs fnp d chain found placed =
      let e = append-nil cs in
      record {
        status = success;
        file = fnp;
        volume = v;
        added = [];
        returned = refl;
        reached = inl (refl, ap (λ l. get_elem? l place) e ∙ found, placed);
        moved = refl;
        longer = record {
          drive = d;
          top = refl;
          chain = subst (IsChain (entry v) (max_cluster v.dpb) start) (sym e) chain;
          were_free = tt;
          others = λ d out. refl;
          needed = inl refl;
        };
      }

  pub full-Mapped :
      (u v : Volume) (start place : ℕ) (cs : List ℕ) (fnp : Fnode)
      → Alike T u v
      → IsChain (entry u) (max_cluster u.dpb) start cs
      → ((c : ℕ) → 2 ≤ c → c ≤ max_cluster u.dpb → entry u c ≢ free)
      → Mapped u start cs place fnp (some (de_hndldskfull, fnp, v))
  full-Mapped u v start place cs fnp a chain full =
      let e = append-nil cs in
      record {
        status = de_hndldskfull;
        file = fnp;
        volume = v;
        added = [];
        returned = refl;
        reached = inr (
          refl,
          λ c low high z. full c low (subst (λ t. c ≤ t) a.top high) (sym (a.entries c) ∙ z),
        );
        moved = refl;
        longer = record {
          drive = a.drive;
          top = a.top;
          chain =
              subst (λ t. IsChain (entry v) t start (cs ++ [])) (sym a.top)
                (subst (IsChain (entry v) (max_cluster u.dpb) start) (sym e)
                  (same-IsChain (entry u) (entry v) (max_cluster u.dpb) start cs a.entries chain));
          were_free = tt;
          others = λ d out. a.entries d;
          needed = inl refl;
        };
      }

  pub Alike-Mapped :
      (u v : Volume) (start place : ℕ) (cs : List ℕ) (fnp g : Fnode) (a : Answer)
      → Alike T u v
      → Moved fnp g
      → Mapped v start cs place g a
      → Mapped u start cs place fnp a
  Alike-Mapped u v start place cs fnp g a alike m r = record {
    status = r.status;
    file = r.file;
    volume = r.volume;
    added = r.added;
    returned = r.returned;
    reached = r.reached;
    moved = Moved-trans fnp g r.file m r.moved;
    longer = Alike-Longer u v r.volume start cs place r.added alike r.longer;
  }

  pub Extended-Mapped :
      (u v : Volume) (start n place : ℕ) (cs : List ℕ) (fnp g : Fnode) (a : Answer)
      → length cs ≤ place
      → Extended T u cs start n v
      → Moved fnp g
      → Mapped v start (cs ++ (n ∷ [])) place g a
      → Mapped u start cs place fnp a
  Extended-Mapped u v start n place cs fnp g a short x m r = record {
    status = r.status;
    file = r.file;
    volume = r.volume;
    added = n ∷ r.added;
    returned = r.returned;
    reached =
        subst (λ l. Reached l place r.status r.file r.volume) (append_assoc cs (n ∷ []) r.added)
          r.reached;
    moved = Moved-trans fnp g r.file m r.moved;
    longer = Extended-Longer u v r.volume start n cs place r.added short x r.longer;
  }
