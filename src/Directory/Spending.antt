-- ===== src/Directory/Spending.antt =====
-- What the steps of the scanner spend: nothing but for the bytes they read, and a unit for each row.
use unity_common.Base.{
  ℕ, zero, suc, ◌+◌, ◌-◌, ◌*◌, ◌≡◌, refl, sym, ap, subst, ◌∙◌, inl, inr, Bool, true, false, Option,
  none, some, arith, ltb, leb, Bool-cases,
}
use unity_common.Prefix.{HeaderView}
use unity_common.MetadataReader.{
  Reader, Number, TreeBudget, Tree, read_tree, take_span, read_count, read_type_prefix,
}
use unity_common.MetadataReader.Take.{IsReader}
use unity_common.MetadataReader.Progress.{
  Advance, IsBudget, read_tree-Advance, maxima, read_tree-maxima, take_span-Advances,
  reads-Advances,
}
use unity_common.Directory.{Field, TypeRow, ObjectRow, Scan, charge_work}
use unity_common.Directory.Scanner.{
  add_cardinality, add_dependencies, tree_budget, with_counts, take_tree, scan_tree, no_tree,
  tree_part, write_type, write_object, scan_type, admit_object, scan_object, scan_types,
  scan_objects,
}
use unity_common.Directory.Stepping.{
  ◌>>=◌, pure, get_limits, get_view, get_bytes, get_position, modify_view, set_field, set_row,
  refuse_here, after_charge, charge, reject_reader, after_read,
}
use unity_common.Directory.Steps.{
  Ends, Failed, IsScan, Spends, Spends-bind, Spends-count, Spends-if, Spends-pure, Spends-read,
  Spends-refuse, Steps, Steps-refl, reader_status-refuses, settings,
}

Spends-get_view : Spends 0 get_view
unfolding get_view Ends
Spends-get_view = record { ends = λ s v. Steps-refl s v }

Spends-get_bytes : Spends 0 get_bytes
unfolding get_bytes Ends
Spends-get_bytes = record { ends = λ s v. Steps-refl s v }

Spends-get_position : Spends 0 get_position
unfolding get_position Ends
Spends-get_position = record { ends = λ s v. Steps-refl s v }

silently :
    (s t : Scan)
    → IsScan s
    → settings t ≡ settings s
    → t.reader ≡ s.reader
    → t.view ≡ s.view
    → Steps 0 s t
silently s t v same reader view = (
  record {
    same = same;
    forward = omega (arith, ap (λ r. r.position) reader);
    paid = omega (arith, ap (λ r. r.position) reader, ap (λ r. r.work_used) reader);
    valid = record {
      reader = subst IsReader (sym reader) v.reader;
      work = cc;
      nodes = rw (view, ap (λ k. k.limits) same) v.nodes;
      strings = rw (view, ap (λ k. k.limits) same) v.strings;
      dependencies = rw (view, ap (λ k. k.limits) same) v.dependencies;
    };
  },
  cc,
)

Spends-set_field : (field : Field) → Spends 0 (set_field field)
unfolding set_field Ends
Spends-set_field field = record { ends = λ s v. silently s _ v refl refl refl }

Spends-set_row : (ordinal : ℕ) → Spends 0 (set_row ordinal)
unfolding set_row Ends
Spends-set_row ordinal = record { ends = λ s v. silently s _ v refl refl refl }

Spends-write_type : (ordinal : ℕ) (row : TypeRow) → Spends 0 (write_type ordinal row)
unfolding write_type Ends
Spends-write_type ordinal row = record { ends = λ s v. silently s _ v refl refl refl }

Spends-write_object : (ordinal : ℕ) (row : ObjectRow) → Spends 0 (write_object ordinal row)
unfolding write_object Ends
Spends-write_object ordinal row = record { ends = λ s v. silently s _ v refl refl refl }

-- A row that is finished costs one unit.
charge_one :
    (s : Scan) (b : Bool) (field : Field) (row offset : ℕ)
    → IsScan s
    → ltb (s.limits.max_work - s.reader.work_used) 1 ≡ b
    → Ends (λ a t. Steps 1 s t) (Failed s.limits.max_work) (charge 1 field row offset s)
unfolding charge charge_work after_charge Ends
charge_one s true field row offset v e =
    rw (e, charge_work) (λ h. ground (arith, h), omega (arith, v.reader.in_work, v.work))
charge_one s false field row offset v e =
    rw (e, charge_work)
      (
        record {
          same = refl;
          forward = omega arith;
          paid = omega arith;
          valid = record {
            reader = record {
              origin = v.reader.origin;
              in_metadata = v.reader.in_metadata;
              in_mapping = v.reader.in_mapping;
              in_budget = v.reader.in_budget;
              in_work = ground (arith, e, v.work, v.reader.in_work);
            };
            work = v.work;
            nodes = v.nodes;
            strings = v.strings;
            dependencies = v.dependencies;
          };
        },
        refl,
      )

Spends-charge : (field : Field) (row offset : ℕ) → Spends 1 (charge 1 field row offset)
Spends-charge field row offset = record {
  ends =
      λ s v. charge_one s (ltb (s.limits.max_work - s.reader.work_used) 1) field row offset v refl;
}

Spends-add_dependencies : (count : Number) → Spends 0 (add_dependencies count)
unfolding add_dependencies add_cardinality ◌>>=◌ get_limits get_view modify_view refuse_here pure
    Ends
Spends-add_dependencies count = record {
  ends = λ s v.
      elim (Bool-cases
        (ltb (s.limits.max_dependency_words - s.view.dependency_word_count) count.value)) [
          | inl over ↦
              rw (over, add_cardinality)
                (λ h. ground (arith, h), omega (arith, v.reader.in_work, v.work))
          | inr fits ↦
              rw (fits, add_cardinality)
                (
                  record {
                    same = refl;
                    forward = omega arith;
                    paid = omega arith;
                    valid = record {
                      reader = v.reader;
                      work = v.work;
                      nodes = v.nodes;
                      strings = v.strings;
                      dependencies = ground (arith, fits, v.dependencies);
                    };
                  },
                  refl,
                )
        ];
}

tree_counted :
    (s : Scan) (budget : TreeBudget) (r : Reader)
    → IsScan s
    → Advance s.reader r
    → IsBudget budget
    → maxima budget ≡ maxima (tree_budget s)
    → Steps 0 s (record s { view = with_counts s.view budget; reader = r })
tree_counted s budget r v a b m = (
  record {
    same = cc;
    forward = a.forward;
    paid = omega (arith, a.paid);
    valid = record {
      reader = a.valid;
      work = a.max_work ∙ v.work;
      nodes = omega (arith, b.nodes, ap (λ k. k.0) m);
      strings = omega (arith, b.strings, ap (λ k. k.1) m);
      dependencies = v.dependencies;
    };
  },
  refl,
)

tree_ends :
    (s : Scan) (found : Option Tree) (budget : TreeBudget) (r : Reader)
    → IsScan s
    → Advance s.reader r
    → IsBudget budget
    → maxima budget ≡ maxima (tree_budget s)
    → Ends
        (λ a t. Steps 0 s t)
        (Failed s.limits.max_work)
        (after_read (record s { view = with_counts s.view budget }) (found, r))
unfolding Ends after_read reject_reader
tree_ends s none budget r v a b m =
    (reader_status-refuses r.status, omega (arith, a.valid.in_work, a.max_work, v.work))
tree_ends s (some tree) budget r v a b m = tree_counted s budget r v a b m

Spends-take_tree : Spends 0 take_tree
unfolding take_tree
Spends-take_tree = record {
  ends = λ s v.
      let (a, b) =
        read_tree-Advance (tree_budget s) s.reader v.reader
          (record { nodes = v.nodes; strings = v.strings }) in
      tree_ends s (read_tree (tree_budget s) s.reader).0 (read_tree (tree_budget s) s.reader).1
        (read_tree (tree_budget s) s.reader).2 v a b (read_tree-maxima (tree_budget s) s.reader);
}

Spends-admit_object :
    (header : HeaderView) (type_count : ℕ) (row : ObjectRow)
    → Spends 0 (admit_object header type_count row)
unfolding admit_object
Spends-admit_object header type_count row =
    Spends-if (ltb (header.file_size - header.data_offset) row.relative_data_offset) _ _
      (Spends-refuse 0 _ _ _ _ _ (λ h. ground (arith, h)))
      (Spends-if
        (ltb (header.file_size - header.data_offset - row.relative_data_offset) row.byte_size) _ _
        (Spends-refuse 0 _ _ _ _ _ (λ h. ground (arith, h)))
        (Spends-if (leb type_count row.type_ordinal) _ _
          (Spends-refuse 0 _ _ _ _ _ (λ h. ground (arith, h))) (Spends-pure tt)))

Spends-scan_tree : Spends 0 scan_tree
unfolding scan_tree
Spends-scan_tree = Spends-bind 0 0 _ _ (Spends-set_field _) (λ x.
    Spends-bind 0 0 _ _ Spends-take_tree (λ tree. Spends-bind 0 0 _ _ (Spends-set_field _) (λ y.
      Spends-bind 0 0 _ _ (Spends-read read_count reads-Advances.1) (λ count.
        Spends-bind 0 0 _ _ (Spends-add_dependencies count) (λ z.
          Spends-bind 0 0 _ _ (Spends-read (take_span (count.value * 4)) (take_span-Advances _))
            (λ words. Spends-pure _))))))

Spends-tree_part : (b : Bool) → Spends 0 (tree_part b)
unfolding tree_part
Spends-tree_part true = Spends-scan_tree
Spends-tree_part false = Spends-pure no_tree

pub Spends-scan_type : (ordinal : ℕ) → Spends 1 (scan_type ordinal)
unfolding scan_type
Spends-scan_type ordinal = Spends-bind 0 1 _ _ (Spends-set_field _) (λ x.
    Spends-bind 0 1 _ _ (Spends-set_row _) (λ y. Spends-bind 0 1 _ _ Spends-get_position (λ start.
      Spends-bind 0 1 _ _ (Spends-read read_type_prefix reads-Advances.2) (λ prefix.
        Spends-bind 0 1 _ _ Spends-get_view (λ view.
          Spends-bind 0 1 _ _ (Spends-tree_part _) (λ part.
            Spends-bind 1 0 _ _ (Spends-charge _ _ _)
              (λ z. Spends-bind 0 0 _ _ Spends-get_position (λ end. Spends-write_type _ _))))))))

pub Spends-scan_object : (ordinal : ℕ) → Spends 1 (scan_object ordinal)
unfolding scan_object
Spends-scan_object ordinal = Spends-bind 0 1 _ _ (Spends-set_field _) (λ x.
    Spends-bind 0 1 _ _ (Spends-set_row _) (λ y.
      Spends-bind 0 1 _ _ (Spends-read (take_span 24) (take_span-Advances 24)) (λ source.
        Spends-bind 0 1 _ _ Spends-get_bytes (λ bytes. Spends-bind 0 1 _ _ Spends-get_view (λ view.
          Spends-bind 0 1 _ _ (Spends-admit_object _ _ _)
            (λ w. Spends-bind 1 0 _ _ (Spends-charge _ _ _) (λ z. Spends-write_object _ _)))))))

pub Spends-scan_types : (n ordinal : ℕ) → Spends n (scan_types n ordinal)
unfolding scan_types
Spends-scan_types zero ordinal = Spends-pure tt
Spends-scan_types (suc n) ordinal =
    Spends-count _ (1 + n) (suc n) (omega arith)
      (Spends-bind 1 n _ _ (Spends-scan_type ordinal) (λ x. Spends-scan_types n (ordinal + 1)))

pub Spends-scan_objects : (n ordinal : ℕ) → Spends n (scan_objects n ordinal)
unfolding scan_objects
Spends-scan_objects zero ordinal = Spends-pure tt
Spends-scan_objects (suc n) ordinal =
    Spends-count _ (1 + n) (suc n) (omega arith)
      (Spends-bind 1 n _ _ (Spends-scan_object ordinal) (λ x. Spends-scan_objects n (ordinal + 1)))
